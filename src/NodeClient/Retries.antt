-- ===== src/NodeClient/Retries.antt =====
-- The subscriptions of core/ethwebsocket.go: what they do until one succeeds.
use dex_executorgo.Prelude.{
  ℕ, zero, suc, ◌*◌, ◌<◌, ◌≡◌, refl, ap, ◌∙◌, Option, none, some, List, [], ◌∷◌, ◌++◌, length,
  arith,
}
use mathlib.Core.List.{append_assoc}
use dex_executorgo.Go.Text.{Text}
use dex_executorgo.Socket.Config.{second}
use dex_executorgo.NodeClient.{Subscription, Note, logs_error, logs_success, pauses, subscribe_from}

-- From the call number n on, the calls fail with these messages, and the one after them succeeds.
abbrev pub Refuses : (ℕ → Option Text) → ℕ → List Text → Type 0
Refuses answer n [] = answer n ≡ none
Refuses answer n (message ∷ rest) = (answer n ≡ some message) × Refuses answer (suc n) rest

abbrev pub failures : Subscription → List Text → List Note
failures s [] = []
failures s (message ∷ rest) = logs_error s message ∷ pauses (second * 5) ∷ failures s rest

abbrev pub successes : Subscription → ℕ → List Note
successes s zero = []
successes s (suc k) = logs_success s ∷ successes s k

successes-snoc :
    (s : Subscription) (k : ℕ) → successes s k ++ logs_success s ∷ [] ≡ successes s (suc k)
successes-snoc s zero = refl
successes-snoc s (suc k) = ap (◌∷◌ (logs_success s)) (successes-snoc s k)

-- A subscription whose calls fail with some messages before one succeeds ends, after one call more
-- than the failures. It has logged each message and paused five seconds after it, and then logs a
-- success once for every call, the failed ones included.
pub subscribe_from_lem :
    (fuel : ℕ) (s : Subscription) (answer : ℕ → Option Text) (n : ℕ) (messages : List Text)
    → Refuses answer n messages
    → length messages < fuel
    → subscribe_from fuel s answer n
      ≡ some (failures s messages ++ successes s (suc (length messages)))
unfolding subscribe_from
subscribe_from_lem zero s answer n messages h k = absurd (omega arith)
subscribe_from_lem (suc fuel) s answer n [] h k = rw (h, subscribe_from) refl
subscribe_from_lem (suc fuel) s answer n (message ∷ rest) h k =
    rw (h.0, subscribe_from, subscribe_from_lem fuel s answer (suc n) rest h.1 (omega arith))
      (ap (λ l. some (logs_error s message ∷ pauses (second * 5) ∷ l))
        (append_assoc (failures s rest) (successes s (suc (length rest))) (logs_success s ∷ [])
          ∙ ap (λ l. failures s rest ++ l) (successes-snoc s (suc (length rest)))))
