-- ===== src/Manager/Loops/History.antt =====
-- The loops of core/node_mgr.go: the manager's three lists and what the loops were given.
use dex_executorgo.Prelude.{
  ℕ, ◌≡◌, refl, ap, subst, ◌∙◌, inl, inr, Bool, Option, none, some, List, [], ◌∷◌, length, drop,
  arith, if◌then◌else◌, Option-cases,
}
use mathlib.Core.List.{filter_map}
use dex_executorgo.Prelude.Int.{ℤ}
use dex_executorgo.Go.Text.{Text}
use dex_executorgo.Go.Outcome.{Outcome, returns, panics, blocks}
use dex_executorgo.Go.Word.{big_int64}
use dex_executorgo.Go.Dict.{Dict, lookup}
use dex_executorgo.Types.{PendingTx, Signal, Header}
use dex_executorgo.Window.{push_window, push_all}
use dex_executorgo.Window.Bounds.{dropped, push_all_lem}
use dex_executorgo.Decoder.CallClient.{EthClient, Goroutine}
use dex_executorgo.Manager.Platform.{Platform, pending_of}
use dex_executorgo.Manager.Trade.{Message}
use dex_executorgo.Manager.Rebuild.{Clock}
use dex_executorgo.Manager.Loops.{
  NodeMgr, ctx_done, pending, signal_data, flag_at, published, respond, from_router, from_enemy,
  dispatch, log_signal, gas_price_analyse, is_zero, sub_geth_block_header, Event, head,
  head_ctx_done, received, step, run,
}

module _ (P : Platform) where
  published-mgr : (mgr : NodeMgr P) (o : Outcome (List Message)) → (published P mgr o).mgr ≡ mgr
  unfolding published
  published-mgr mgr (returns messages) = refl
  published-mgr mgr (panics p) = refl
  published-mgr mgr blocks = refl

  respond-mgr :
      (mgr : NodeMgr P) (gas_price : ℤ) (clock : Clock) (symbols : List Text) (already : Bool)
      → (respond P mgr gas_price clock symbols already).mgr ≡ mgr
  unfolding respond
  respond-mgr mgr gas_price clock symbols already = grind (arith, published-mgr)

  from_router-mgr :
      (mgr : NodeMgr P) (gas_price : ℤ) (clock : Clock) (tx : PendingTx) (dex_name : Text)
      → (from_router P mgr gas_price clock tx dex_name).mgr ≡ mgr
  unfolding from_router
  from_router-mgr mgr gas_price clock tx dex_name = grind (arith, respond-mgr)

  from_enemy-mgr :
      (mgr : NodeMgr P) (gas_price : ℤ) (clock : Clock) (client : EthClient)
      (order : List Goroutine) (tx : PendingTx)
      → (from_enemy P mgr gas_price clock client order tx).mgr ≡ mgr
  unfolding from_enemy
  from_enemy-mgr mgr gas_price clock client order tx = grind (arith, respond-mgr)

  log_signal-mgr : (mgr : NodeMgr P) (second : ℕ) → (log_signal P mgr second).mgr ≡ mgr
  unfolding log_signal
  log_signal-mgr mgr second = ground arith

  -- What an event adds to each list: a header whose number is not 0, a signal that can be decoded,
  -- a transaction that can be decoded and goes to a competitor and to no router.
  abbrev pub accepted_head : Event P → Option Header
  accepted_head (head h) = if is_zero P (big_int64 h.number) then none else some h
  accepted_head head_ctx_done = none
  accepted_head (received r) = none

  abbrev pub accepted_signal : Event P → Option Signal
  accepted_signal (received (signal_data text second)) = P.signal_of text
  accepted_signal (received ctx_done) = none
  accepted_signal (received (pending tx client order clock)) = none
  accepted_signal (head h) = none
  accepted_signal head_ctx_done = none

  abbrev pub enemy_tx :
      Dict Text → Dict Bool → P.Transaction → Option PendingTx → Option P.Transaction
  enemy_tx routers enemies tx none = none
  enemy_tx routers enemies tx (some p) = elim (lookup p.to routers) [
    | some dex_name ↦ none
    | none ↦ if flag_at p.to enemies then some tx else none
  ]

  abbrev pub accepted_tx : Dict Text → Dict Bool → Event P → Option P.Transaction
  accepted_tx routers enemies (received (pending tx client order clock)) =
      enemy_tx routers enemies tx (pending_of P tx)
  accepted_tx routers enemies (received ctx_done) = none
  accepted_tx routers enemies (received (signal_data text second)) = none
  accepted_tx routers enemies (head h) = none
  accepted_tx routers enemies head_ctx_done = none

  abbrev pub push_option {ℓ} : {A : Type ℓ} → List A → Option A → List A
  push_option l none = l
  push_option l (some x) = push_window l x

  -- The manager after an event: the three lists with what the event adds, and all else as before.
  unfoldable pub after : NodeMgr P → Event P → NodeMgr P
  after mgr e = record mgr {
    pending_tx_list =
        push_option mgr.pending_tx_list (accepted_tx mgr.router_map mgr.enemies_map e);
    header_ws_list = push_option mgr.header_ws_list (accepted_head e);
    signals = push_option mgr.signals (accepted_signal e);
  }

  dispatch-mgr :
      (mgr : NodeMgr P) (tx : P.Transaction) (client : EthClient) (order : List Goroutine)
      (clock : Clock) (p : PendingTx)
      → (dispatch P mgr tx client order clock p).mgr ≡ record mgr {
        pending_tx_list =
            push_option mgr.pending_tx_list (enemy_tx mgr.router_map mgr.enemies_map tx (some p));
      }
  unfolding dispatch
  dispatch-mgr mgr tx client order clock p =
      grind (arith, respond-mgr, from_router-mgr, from_enemy-mgr)

  pub step-after : (mgr : NodeMgr P) (e : Event P) → (step P mgr e).0 ≡ after mgr e
  unfolding step after gas_price_analyse sub_geth_block_header
  step-after mgr (head h) = ground arith
  step-after mgr head_ctx_done = refl
  step-after mgr (received ctx_done) = refl
  step-after mgr (received (pending tx client order clock)) = grind (arith, dispatch-mgr)
  step-after mgr (received (signal_data text second)) = grind (arith, log_signal-mgr)

  push_all-filter_map {ℓ} :
      {A : Type ℓ} (f : Event P → Option A) (l : List A) (e : Event P) (es : List (Event P))
      → push_all (push_option l (f e)) (filter_map f es) ≡ push_all l (filter_map f (e ∷ es))
  unfolding push_all filter_map
  push_all-filter_map f l e es = elim (Option-cases (f e)) [ inl h ↦ rw h | inr (x, h) ↦ rw h ]

  -- The lists that a manager ends with, from those that it begins with.
  record Ends (mgr last : NodeMgr P) (es : List (Event P)) : Type 0 where
    heads : last.header_ws_list ≡ push_all mgr.header_ws_list (filter_map accepted_head es)
    signals : last.signals ≡ push_all mgr.signals (filter_map accepted_signal es)
    txs :
        last.pending_tx_list
        ≡ push_all mgr.pending_tx_list (filter_map (accepted_tx mgr.router_map mgr.enemies_map) es)

  after-Ends :
      (mgr last : NodeMgr P) (e : Event P) (es : List (Event P))
      → Ends (after mgr e) last es
      → Ends mgr last (e ∷ es)
  unfolding after
  after-Ends mgr last e es h = record {
    heads = h.heads ∙ push_all-filter_map accepted_head mgr.header_ws_list e es;
    signals = h.signals ∙ push_all-filter_map accepted_signal mgr.signals e es;
    txs =
        h.txs
        ∙ push_all-filter_map (accepted_tx mgr.router_map mgr.enemies_map) mgr.pending_tx_list e es;
  }

  run-Ends : (mgr : NodeMgr P) (es : List (Event P)) → Ends mgr (run P mgr es).0 es
  unfolding run
  run-Ends mgr [] =
      unfold push_all filter_map in record { heads = refl; signals = refl; txs = refl }
  run-Ends mgr (e ∷ es) = after-Ends mgr (run P (step P mgr e).0 es).0 e es (
      subst (λ m. Ends m (run P (step P mgr e).0 es).0 es) (step-after mgr e)
        (run-Ends (step P mgr e).0 es))

  -- The manager of a fresh start: it has seen nothing.
  pub record IsFresh (mgr : NodeMgr P) : Type 0 where
    pub no_headers : mgr.header_ws_list ≡ []
    pub no_signals : mgr.signals ≡ []
    pub no_txs : mgr.pending_tx_list ≡ []

  -- The newest entries of a history, in order: all but its oldest 100 * ((n - 102) / 100) of n.
  abbrev pub newest {ℓ} : {A : Type ℓ} → List A → List A
  newest history = drop (dropped (length history)) history

  -- From a fresh start, and after any rounds of the two loops in any order, panics included, each
  -- list of the manager is the newest part of its history: the headers with a number other than 0,
  -- the signals that could be decoded, and the transactions to a competitor and to no router.
  pub run-newest :
      (mgr : NodeMgr P) (es : List (Event P))
      → IsFresh mgr
      → ((run P mgr es).0.header_ws_list ≡ newest (filter_map accepted_head es))
        × ((run P mgr es).0.signals ≡ newest (filter_map accepted_signal es))
        × ((run P mgr es).0.pending_tx_list
            ≡ newest (filter_map (accepted_tx mgr.router_map mgr.enemies_map) es))
  run-newest mgr es fresh =
      let ends = run-Ends mgr es in
      (
        ends.heads
            ∙ ap (λ l. push_all l (filter_map accepted_head es)) fresh.no_headers
            ∙ (push_all_lem (filter_map accepted_head es)).0,
        ends.signals
            ∙ ap (λ l. push_all l (filter_map accepted_signal es)) fresh.no_signals
            ∙ (push_all_lem (filter_map accepted_signal es)).0,
        ends.txs
            ∙ ap (λ l. push_all l (filter_map (accepted_tx mgr.router_map mgr.enemies_map) es))
                fresh.no_txs
            ∙ (push_all_lem (filter_map (accepted_tx mgr.router_map mgr.enemies_map) es)).0,
      )
