-- ===== src/Manager/Loops/Actions.antt =====
-- GasPriceAnalyse of core/node_mgr.go: what its rounds do outside the manager.
use dex_executorgo.Prelude.{
  ℕ, ◌≡◌, refl, ◌≢◌, ◌⊎◌, inl, inr, Bool, false, not, ◌&&◌, List, [], ◌∷◌, arith, Option-cases,
  Bool-cases, All, All-append, All-map,
}
use dex_executorgo.Prelude.Int.{ℤ}
use dex_executorgo.Go.Text.{Text}
use dex_executorgo.Go.Outcome.{Outcome, returns, panics, blocks}
use dex_executorgo.Go.Dict.{lookup}
use dex_executorgo.Types.{PendingTx}
use dex_executorgo.Decoder.CallClient.{EthClient, Goroutine}
use dex_executorgo.Decoder.Router
use dex_executorgo.Decoder.CallClient.Laws.{no_symbols_on_chain}
use dex_executorgo.Manager.Platform.{Platform, pending_of}
use dex_executorgo.Manager.Block.{last_elem}
use dex_executorgo.Manager.Trade.{Message}
use dex_executorgo.Manager.Rebuild.{Clock}
use dex_executorgo.Manager.Loops.{
  NodeMgr, Action, publishes, cancels, Round, Received, ctx_done, pending, signal_data, flag_at,
  is_empty, published, respond, from_router, from_enemy, dispatch, log_signal, gas_price_analyse,
  Event, head, head_ctx_done, received, step, run,
}

-- The action is no call of CancelTx.
abbrev pub IsNoCancel : Action → Type 0
IsNoCancel a = a ≢ cancels

publishes-IsNoCancel : (m : Message) → IsNoCancel (publishes m)
publishes-IsNoCancel m e = cc

module _ (P : Platform) where
  published-IsNoCancel :
      (mgr : NodeMgr P) (o : Outcome (List Message)) → All IsNoCancel (published P mgr o).actions
  unfolding published
  published-IsNoCancel mgr (returns messages) =
      All-map IsNoCancel publishes messages publishes-IsNoCancel
  published-IsNoCancel mgr (panics p) = tt
  published-IsNoCancel mgr blocks = tt

  respond-IsNoCancel :
      (mgr : NodeMgr P) (gas_price : ℤ) (clock : Clock) (symbols : List Text) (already : Bool)
      → (already ≡ false) ⊎ (symbols ≡ [])
      → All IsNoCancel (respond P mgr gas_price clock symbols already).actions
  unfolding respond
  respond-IsNoCancel mgr gas_price clock symbols already (inl e) =
      elim (Bool-cases (not (is_empty symbols) && not (is_empty mgr.signals))) [
        | inl t ↦ rw (t, e) (published-IsNoCancel mgr _)
        | inr t ↦ rw t tt
      ]
  respond-IsNoCancel mgr gas_price clock symbols already (inr e) = rw e tt

  from_router-IsNoCancel :
      (mgr : NodeMgr P) (gas_price : ℤ) (clock : Clock) (tx : PendingTx) (dex_name : Text)
      → All IsNoCancel (from_router P mgr gas_price clock tx dex_name).actions
  unfolding from_router
  from_router-IsNoCancel mgr gas_price clock tx dex_name =
      by_outcome (Router.decode_to_symbol P.abi mgr.r_decoder dex_name tx)
    where
      by_outcome :
          (o : Outcome (List Text))
          → All IsNoCancel
              (elim o as (λ _. Round P) [
                | returns symbol_list ↦ respond P mgr gas_price clock symbol_list false
                | panics p ↦ record { mgr = mgr; actions = []; ended = panics p }
                | blocks ↦ record { mgr = mgr; actions = []; ended = blocks }
              ]).actions
      by_outcome (returns symbols) = respond-IsNoCancel mgr gas_price clock symbols false (inl refl)
      by_outcome (panics p) = tt
      by_outcome blocks = tt

  from_enemy-IsNoCancel :
      (mgr : NodeMgr P) (gas_price : ℤ) (clock : Clock) (client : EthClient)
      (order : List Goroutine) (tx : PendingTx)
      → All IsNoCancel (from_enemy P mgr gas_price clock client order tx).actions
  unfolding from_enemy
  from_enemy-IsNoCancel mgr gas_price clock client order tx =
      elim (Option-cases (last_elem mgr.header_ws_list)) [
        | inl e ↦ rw (e, All) tt
        | inr (header, e) ↦
            rw (e, All)
              (respond-IsNoCancel mgr gas_price clock _ _
                (no_symbols_on_chain mgr.pair_symbol_map client order tx))
      ]

  dispatch-IsNoCancel :
      (mgr : NodeMgr P) (tx : P.Transaction) (client : EthClient) (order : List Goroutine)
      (clock : Clock) (p : PendingTx)
      → All IsNoCancel (dispatch P mgr tx client order clock p).actions
  unfolding dispatch
  dispatch-IsNoCancel mgr tx client order clock p =
      elim (Option-cases (lookup p.to mgr.router_map)) [
        | inr (dex_name, e) ↦
            rw (e, All) (from_router-IsNoCancel mgr (P.gas_price tx) clock p dex_name)
        | inl e ↦
            rw (e, All)
              (elim (Bool-cases (flag_at p.to mgr.enemies_map)) [
                | inl f ↦ rw f (from_enemy-IsNoCancel _ (P.gas_price tx) clock client order p)
                | inr f ↦ rw f (respond-IsNoCancel mgr (P.gas_price tx) clock [] false (inl refl))
              ])
      ]

  log_signal-actions : (mgr : NodeMgr P) (second : ℕ) → (log_signal P mgr second).actions ≡ []
  unfolding log_signal
  log_signal-actions mgr second = ground arith

  gas_price_analyse-IsNoCancel :
      (mgr : NodeMgr P) (r : Received P) → All IsNoCancel (gas_price_analyse P mgr r).actions
  unfolding gas_price_analyse
  gas_price_analyse-IsNoCancel mgr ctx_done = ((λ e. cc), tt)
  gas_price_analyse-IsNoCancel mgr (pending tx client order clock) =
      elim (Option-cases (pending_of P tx)) [
        | inl e ↦ rw (e, All) tt
        | inr (p, e) ↦ rw (e, All) (dispatch-IsNoCancel mgr tx client order clock _)
      ]
  gas_price_analyse-IsNoCancel mgr (signal_data text second) =
      elim (Option-cases (P.signal_of text)) [
        | inl e ↦ rw (e, All) tt
        | inr (signal, e) ↦ rw (e, All) (rw (log_signal-actions _ second) tt)
      ]

  step-IsNoCancel : (mgr : NodeMgr P) (e : Event P) → All IsNoCancel (step P mgr e).1
  unfolding step
  step-IsNoCancel mgr (head h) = tt
  step-IsNoCancel mgr head_ctx_done = ((λ e. cc), tt)
  step-IsNoCancel mgr (received r) = gas_price_analyse-IsNoCancel mgr r

  -- No round of the loops ever calls CancelTx: the only branch that does wants symbols of a
  -- transaction that is on the chain already, and the decoder gives none for it.
  pub run-IsNoCancel : (mgr : NodeMgr P) (es : List (Event P)) → All IsNoCancel (run P mgr es).1
  unfolding run
  run-IsNoCancel mgr [] = tt
  run-IsNoCancel mgr (e ∷ es) =
      All-append IsNoCancel (step P mgr e).1 (run P (step P mgr e).0 es).1 (step-IsNoCancel mgr e)
        (run-IsNoCancel (step P mgr e).0 es)
