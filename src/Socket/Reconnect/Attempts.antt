-- ===== src/Socket/Reconnect/Attempts.antt =====
-- Reconnect of core/websocket.go: its attempts and the pauses between them.
use dex_executorgo.Prelude.{
  ℕ, zero, suc, ◌+◌, ◌≤◌, ◌<◌, ◌≡◌, refl, ap, ap₂, ◌∙◌, true, Option, none, some, List, [], ◌∷◌,
  ◌++◌, arith,
}
use mathlib.Core.List.{append_assoc}
use dex_executorgo.Prelude.Int.{ℤ}
use dex_executorgo.Go.Word.{mul_int64}
use dex_executorgo.Go.Outcome.{Outcome, returns}
use dex_executorgo.Go.Text.{Text}
use dex_executorgo.Socket.Conn.{WsConn, Effect, dials, sleeps}
use dex_executorgo.Socket.Reconnect.{Peer, before_attempt, after_dial, retry_from}

-- The attempts number n to n + k - 1, each failed: a dial and a pause. The pause behind the attempt
-- number n is `pause n`.
pub failed_attempts : Text → (ℕ → ℤ) → ℕ → ℕ → List Effect
failed_attempts url pause n zero = []
failed_attempts url pause n (suc k) =
    dials url ∷ sleeps (pause n) ∷ failed_attempts url pause (suc n) k

-- Pauses that are the same for the attempts that are made.
pub failed_attempts-same :
    (url : Text) (pause other : ℕ → ℤ) (last n k : ℕ)
    → ((i : ℕ) → i < last → pause i ≡ other i)
    → n + k ≤ last
    → failed_attempts url pause n k ≡ failed_attempts url other n k
unfolding failed_attempts
failed_attempts-same url pause other last n zero same h = refl
failed_attempts-same url pause other last n (suc k) same h =
    ap₂ (λ p rest. dials url ∷ sleeps p ∷ rest) (same n (omega arith))
      (failed_attempts-same url pause other last (suc n) k same (omega arith))

module _ (peer : Peer) (ws : WsConn) (plain : ws.config.pre_reconnect_hook ≡ none) where
  plain_attempt : (n : ℕ) → before_attempt peer n ws ≡ (ws, [])
  unfolding before_attempt
  plain_attempt n = rw plain

  one_failed :
      (left n : ℕ) (effects : List Effect) (failure : Option Text) {message : Text}
      → peer.dial n ≡ returns (some message)
      → retry_from peer (suc left) n ws effects failure
        ≡ retry_from peer left
            (suc n)
            ws
            (effects
              ++ dials ws.config.ws_url ∷ sleeps (mul_int64 ws.config.reconnect_interval n) ∷ [])
            (some message)
  unfolding retry_from after_dial
  one_failed left n effects failure e =
      ap₂
        (after_dial peer (λ w done message. retry_from peer left (suc n) w done (some message)) n
          effects)
        e (plain_attempt n)

  one_succeeded :
      (left n : ℕ) (effects : List Effect) (failure : Option Text)
      → peer.dial n ≡ returns none
      → retry_from peer (suc left) n ws effects failure ≡ record {
        ws = record ws { connected = true };
        effects = effects ++ dials ws.config.ws_url ∷ [];
        failure = returns none;
      }
  unfolding retry_from after_dial
  one_succeeded left n effects failure e =
      ap₂
        (after_dial peer (λ w done message. retry_from peer left (suc n) w done (some message)) n
          effects)
        e (plain_attempt n)

  -- The dial number n + i, counted from the next attempt.
  shift :
      (n i : ℕ) {o : Outcome (Option Text)} → peer.dial (n + suc i) ≡ o → peer.dial (suc n + i) ≡ o
  shift n i e = ap peer.dial {y = n + suc i} (omega arith) ∙ e

  first : (n : ℕ) {o : Outcome (Option Text)} → peer.dial (n + 0) ≡ o → peer.dial n ≡ o
  first n e = ap peer.dial {y = n + 0} (omega arith) ∙ e

  -- If the first k attempts fail and the next one succeeds, with attempts left, then exactly k + 1
  -- dials are made, with a pause of n intervals, in 64 bits, behind the failed attempt number n.
  pub retry_from-succeeds :
      (k left n : ℕ) (effects : List Effect) (failure : Option Text)
      → ((i : ℕ) → i < k → (message : Text) × (peer.dial (n + i) ≡ returns (some message)))
      → peer.dial (n + k) ≡ returns none
      → retry_from peer (k + suc left) n ws effects failure ≡ record {
        ws = record ws { connected = true };
        effects =
            effects
            ++ (failed_attempts ws.config.ws_url (mul_int64 ws.config.reconnect_interval) n k
                ++ dials ws.config.ws_url ∷ []);
        failure = returns none;
      }
  unfolding failed_attempts
  retry_from-succeeds zero left n effects failure fails works =
      ap (λ l. retry_from peer l n ws effects failure) {y = suc left} (omega arith)
      ∙ one_succeeded left n effects failure (first n works)
  retry_from-succeeds (suc k) left n effects failure fails works =
      let (message, failed) = fails 0 (omega arith) in
      ap (λ l. retry_from peer l n ws effects failure) {y = suc (k + suc left)} (omega arith)
      ∙ one_failed (k + suc left) n effects failure (first n failed)
      ∙ retry_from-succeeds k left (suc n) _ (some message)
          (λ i h. let (m, e) = fails (suc i) (omega arith) in (m, shift n i e)) (shift n k works)
      ∙ ap
          (λ l. record { ws = record ws { connected = true }; effects = l; failure = returns none })
          (append_assoc effects _ _)

  -- If all the attempts fail, each was made, and the last error is kept.
  pub retry_from-fails :
      (left n : ℕ) (effects : List Effect) (failure : Option Text)
      → ((i : ℕ) → i < left → (message : Text) × (peer.dial (n + i) ≡ returns (some message)))
      → 1 ≤ left
      → (message : Text) × (retry_from peer left n ws effects failure ≡ record {
        ws = ws;
        effects =
            effects
            ++ failed_attempts ws.config.ws_url (mul_int64 ws.config.reconnect_interval) n left;
        failure = returns (some message);
      })
  unfolding failed_attempts
  retry_from-fails zero n effects failure fails h = elim h [ ]
  retry_from-fails (suc zero) n effects failure fails h =
      let (message, failed) = fails 0 (omega arith) in
      (message, one_failed 0 n effects failure (first n failed) ∙ unfold retry_from in refl)
  retry_from-fails (suc (suc left)) n effects failure fails h =
      let (message, failed) = fails 0 (omega arith) in
      let (last, e) =
        retry_from-fails (suc left) (suc n) _ (some message)
          (λ i k. let (m, e) = fails (suc i) (omega arith) in (m, shift n i e)) (omega arith) in
      (
        last,
        one_failed (suc left) n effects failure (first n failed)
            ∙ e
            ∙ ap (λ l. record { ws = ws; effects = l; failure = returns (some last) })
                (append_assoc effects _ _),
      )
