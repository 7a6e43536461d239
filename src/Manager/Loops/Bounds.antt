-- ===== src/Manager/Loops/Bounds.antt =====
-- The loops of core/node_mgr.go: the sizes of the lists, and rounds that panic or do not.
use mathlib.Core.List.{filter_map}
use dex_executorgo.Manager.Loops.History.{IsFresh, newest, run-newest}
use dex_executorgo.Prelude.{
  ap, ◌∙◌, refl, ℕ, ◌≤◌, ◌≡◌, refl, subst, sym, inl, inr, true, Option, none, some, List, [], ◌∷◌,
  length, arith, Option-cases,
}
use dex_executorgo.Go.Text.{Text}
use dex_executorgo.Go.Outcome.{returns, panics, index_range}
use dex_executorgo.Go.Dict.{lookup}
use dex_executorgo.Types.{PendingTx}
use dex_executorgo.Window.{push_window}
use dex_executorgo.Window.Bounds.{length-push_window}
use dex_executorgo.Decoder.CallClient.{EthClient, Goroutine}
use dex_executorgo.Manager.Platform.{Platform, pending_of}
use dex_executorgo.Manager.Block.{last_elem, get_pending_block_num}
use dex_executorgo.Manager.Rebuild.{Clock}
use dex_executorgo.Manager.Loops.{
  NodeMgr, pending, signal_data, flag_at, from_enemy, dispatch, log_signal, gas_price_analyse,
  Event, step, run,
}
use dex_executorgo.Manager.Loops.History.{
  push_option, after, step-after, accepted_head, accepted_signal, accepted_tx,
}

module _ (P : Platform) where
  pub record IsBounded (mgr : NodeMgr P) : Type 0 where
    pub headers : length mgr.header_ws_list ≤ 201
    pub signals : length mgr.signals ≤ 201
    pub txs : length mgr.pending_tx_list ≤ 201

  length-push_option {ℓ} :
      {A : Type ℓ} (l : List A) (o : Option A) → length l ≤ 201 → length (push_option P l o) ≤ 201
  length-push_option l none h = h
  length-push_option l (some x) h = (length-push_window l x h).1

  pub step-IsBounded : (mgr : NodeMgr P) (e : Event P) → IsBounded mgr → IsBounded (step P mgr e).0
  unfolding after
  step-IsBounded mgr e b = subst IsBounded (sym (step-after P mgr e)) (record {
    headers = length-push_option mgr.header_ws_list (accepted_head P e) b.headers;
    signals = length-push_option mgr.signals (accepted_signal P e) b.signals;
    txs =
        length-push_option mgr.pending_tx_list (accepted_tx P mgr.router_map mgr.enemies_map e)
          b.txs;
  })

  -- Rounds of the loops in any order keep each list at 201 entries at most, if each has no more
  -- before them.
  pub run-IsBounded :
      (mgr : NodeMgr P) (es : List (Event P)) → IsBounded mgr → IsBounded (run P mgr es).0
  unfolding run
  run-IsBounded mgr [] b = b
  run-IsBounded mgr (e ∷ es) b = run-IsBounded (step P mgr e).0 es (step-IsBounded mgr e b)

  push_option-cons {ℓ} :
      {A : Type ℓ} (l : List A) (o : Option A)
      → 1 ≤ length l
      → length l ≤ 201
      → 1 ≤ length (push_option P l o)
  push_option-cons l none h k = h
  push_option-cons l (some x) h k = (length-push_window l x k).0

  -- A list of headers that is not empty stays so.
  run_keeps_headers :
      (mgr : NodeMgr P) (es : List (Event P))
      → IsBounded mgr
      → 1 ≤ length mgr.header_ws_list
      → 1 ≤ length (run P mgr es).0.header_ws_list
  unfolding run after
  run_keeps_headers mgr [] b h = h
  run_keeps_headers mgr (e ∷ es) b h =
      run_keeps_headers (step P mgr e).0 es (step-IsBounded mgr e b) (
        subst (λ m. 1 ≤ length m.header_ws_list) (sym (step-after P mgr e))
          (push_option-cons mgr.header_ws_list (accepted_head P e) h b.headers))

  last_elem_in {ℓ} : {A : Type ℓ} (l : List A) → 1 ≤ length l → (x : A) × (last_elem l ≡ some x)
  last_elem_in [] h = elim h [ ]
  last_elem_in (x ∷ []) h = (x, refl)
  last_elem_in (x ∷ y ∷ l) h = last_elem_in (y ∷ l) (omega arith)

  log_signal-returns :
      (mgr : NodeMgr P) (second : ℕ)
      → 1 ≤ length mgr.header_ws_list
      → (log_signal P mgr second).ended ≡ returns tt
  unfolding log_signal get_pending_block_num
  log_signal-returns mgr second h =
      let (header, e) = last_elem_in mgr.header_ws_list h in ground arith

  -- Once a header has been kept, with each list at 201 entries at most, and whatever rounds follow,
  -- a round for a signal returns: it never panics.
  pub signal_round_returns :
      (mgr : NodeMgr P) (es : List (Event P)) (text : Text) (second : ℕ)
      → IsBounded mgr
      → 1 ≤ length mgr.header_ws_list
      → (gas_price_analyse P (run P mgr es).0 (signal_data text second)).ended ≡ returns tt
  unfolding gas_price_analyse
  signal_round_returns mgr es text second b h = elim (Option-cases (P.signal_of text)) [
    | inl e ↦ rw (e, gas_price_analyse)
    | inr (signal, e) ↦
        rw (e, gas_price_analyse) (log_signal-returns _ second (run_keeps_headers mgr es b h))
  ]

  run_keeps_tables :
      (mgr : NodeMgr P) (es : List (Event P))
      → ((run P mgr es).0.router_map ≡ mgr.router_map)
        × ((run P mgr es).0.enemies_map ≡ mgr.enemies_map)
  unfolding run after
  run_keeps_tables mgr [] = (refl, refl)
  run_keeps_tables mgr (e ∷ es) =
      let (routers, enemies) = run_keeps_tables (step P mgr e).0 es in
      (
        routers ∙ ap (λ (m : NodeMgr P). m.router_map) (step-after P mgr e),
        enemies ∙ ap (λ (m : NodeMgr P). m.enemies_map) (step-after P mgr e),
      )

  enemy_round_lem :
      (mgr : NodeMgr P) (tx : P.Transaction) (client : EthClient) (order : List Goroutine)
      (clock : Clock) {p : PendingTx}
      → mgr.header_ws_list ≡ []
      → pending_of P tx ≡ some p
      → lookup p.to mgr.router_map ≡ none
      → flag_at p.to mgr.enemies_map ≡ true
      → gas_price_analyse P mgr (pending tx client order clock) ≡ record {
        mgr = record mgr { pending_tx_list = push_window mgr.pending_tx_list tx };
        actions = [];
        ended = panics index_range;
      }
  unfolding gas_price_analyse dispatch from_enemy
  enemy_round_lem mgr tx client order clock none_yet decoded no_router enemy = ground arith

  no_headers_yet :
      (mgr : NodeMgr P) (es : List (Event P))
      → IsFresh P mgr
      → filter_map (accepted_head P) es ≡ []
      → (run P mgr es).0.header_ws_list ≡ []
  no_headers_yet mgr es fresh none_yet = (run-newest P mgr es fresh).0 ∙ ap (newest P) none_yet

  -- From a fresh start, whatever rounds the loops have gone through, if none of them had a header
  -- with a number other than 0, a competitor's transaction makes the round panic. It publishes
  -- nothing, and the transaction is kept all the same.
  pub enemy_round_panics :
      (mgr : NodeMgr P) (es : List (Event P)) (tx : P.Transaction) (client : EthClient)
      (order : List Goroutine) (clock : Clock) {p : PendingTx}
      → IsFresh P mgr
      → filter_map (accepted_head P) es ≡ []
      → pending_of P tx ≡ some p
      → lookup p.to mgr.router_map ≡ none
      → flag_at p.to mgr.enemies_map ≡ true
      → gas_price_analyse P (run P mgr es).0 (pending tx client order clock) ≡ record {
        mgr = record (run P mgr es).0 {
          pending_tx_list = push_window (run P mgr es).0.pending_tx_list tx;
        };
        actions = [];
        ended = panics index_range;
      }
  enemy_round_panics mgr es tx client order clock {p} fresh none_yet decoded no_router enemy =
      enemy_round_lem (run P mgr es).0 tx client order clock (no_headers_yet mgr es fresh none_yet)
        decoded (ap (lookup p.to) (run_keeps_tables mgr es).0 ∙ no_router)
        (ap (flag_at p.to) (run_keeps_tables mgr es).1 ∙ enemy)
