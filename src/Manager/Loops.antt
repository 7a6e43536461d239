-- ===== src/Manager/Loops.antt =====
-- The two select loops of NodeMgr: GasPriceAnalyse takes pending transactions and signals, and
-- SubGethBlockHeader takes headers. One round of a loop is one step; what the round did before a
-- panic stays, and the deferred recover starts the loop again.
pub mod History
pub mod Actions
pub mod Bounds
pub mod Outbids
use dex_executorgo.Prelude.{
  ℕ, zero, suc, Bool, true, false, ◌&&◌, not, Option, none, some, List, [], ◌∷◌, ◌++◌, map,
  if◌then◌else◌,
}
use dex_executorgo.Prelude.Int.{ℤ, pos, negsuc}
use dex_executorgo.Go.Text.{Text}
use dex_executorgo.Go.Outcome.{
  Outcome, Panic, returns, panics, blocks, index_range, or_panic, ◌>>=◌,
}
use dex_executorgo.Go.Word.{big_int64}
use dex_executorgo.Go.Dict.{Dict, lookup}
use dex_executorgo.Types.{PendingTx, Signal, Header}
use dex_executorgo.Window.{push_window}
use dex_executorgo.Decoder.Router.{RouterDecoder}
use dex_executorgo.Decoder.Router
use dex_executorgo.Decoder.CallClient.{EthClient, Goroutine}
use dex_executorgo.Decoder.CallClient
use dex_executorgo.Manager.Platform.{Platform, pending_of}
use dex_executorgo.Manager.Block.{last_elem, get_pending_block_num}
use dex_executorgo.Manager.Trade.{Message}
use dex_executorgo.Manager.Rebuild.{Clock, rebuild_tx}

pub record NodeMgr (P : Platform) : Type 0 where
  pub router_map : Dict Text
  pub enemies_map : Dict Bool
  pub pending_tx_list : List P.Transaction
  pub header_ws_list : List Header
  pub signals : List Signal
  pub r_decoder : Option (RouterDecoder P.abi)
  pub pair_symbol_map : Dict Text  -- of cDecoder

-- What a round does outside the manager.
pub data Action : Type 0 where
  publishes : Message → Action
  cancels : Action
  closes_ws : Action

-- The manager after a round, its actions in order, and how it ended.
pub record Round (P : Platform) : Type 0 where
  pub mgr : NodeMgr P
  pub actions : List Action
  pub ended : Outcome (Unit {0})

-- What GasPriceAnalyse receives: the end of its context, a pending transaction, with the answers
-- of the node, the order in which the decoder's goroutines end and the clock, or a signal's bytes,
-- with the clock's second.
pub data Received (P : Platform) : Type 0 where
  ctx_done : Received P
  pending : P.Transaction → EthClient → List Goroutine → Clock → Received P
  signal_data : Text → ℕ → Received P

-- The head of the list of signals is not empty.
abbrev pub is_empty {ℓ} : {A : Type ℓ} → List A → Bool
is_empty [] = true
is_empty (x ∷ xs) = false

-- okk of `okk, _ := m[k]`: false where the key is missing
abbrev pub flag_at : Text → Dict Bool → Bool
flag_at k m = elim (lookup k m) [ none ↦ false | some b ↦ b ]

module _ (P : Platform) where
  -- A round that ends as an outcome with messages does.
  unfoldable pub published : NodeMgr P → Outcome (List Message) → Round P
  published mgr (returns messages) = record {
    mgr = mgr;
    actions = map publishes messages;
    ended = returns tt;
  }
  published mgr (panics p) = record { mgr = mgr; actions = []; ended = panics p }
  published mgr blocks = record { mgr = mgr; actions = []; ended = blocks }

  -- The end of the case for a transaction: the test of the symbols and the signals, and CancelTx
  -- or RebuildTx. CancelTx itself does nothing.
  unfoldable pub respond : NodeMgr P → ℤ → Clock → List Text → Bool → Round P
  respond mgr gas_price clock symbol_list already_on_chain =
      if not (is_empty symbol_list) && not (is_empty mgr.signals)
      then (if already_on_chain
          then record { mgr = mgr; actions = cancels ∷ []; ended = returns tt }
          else published mgr (
              rebuild_tx P.orders P.floats mgr.header_ws_list mgr.signals symbol_list gas_price
                clock))
      else record { mgr = mgr; actions = []; ended = returns tt }

  -- The branch for a known router.
  unfoldable pub from_router : NodeMgr P → ℤ → Clock → PendingTx → Text → Round P
  from_router mgr gas_price clock tx dex_name =
      elim (Router.decode_to_symbol P.abi mgr.r_decoder dex_name tx) [
        | returns symbol_list ↦ respond mgr gas_price clock symbol_list false
        | panics p ↦ record { mgr = mgr; actions = []; ended = panics p }
        | blocks ↦ record { mgr = mgr; actions = []; ended = blocks }
      ]

  -- The branch for a competitor, behind the update of PendingTxList: an empty list of headers
  -- panics.
  unfoldable pub from_enemy :
      NodeMgr P → ℤ → Clock → EthClient → List Goroutine → PendingTx → Round P
  from_enemy mgr gas_price clock client order tx = elim (last_elem mgr.header_ws_list) [
    | none ↦ record { mgr = mgr; actions = []; ended = panics index_range }
    | some latest_block ↦
        let (symbol_list, already) =
          CallClient.decode_to_symbol mgr.pair_symbol_map client order tx in
        respond mgr gas_price clock symbol_list already
  ]

  -- The branches on the address that the transaction goes to.
  unfoldable pub dispatch :
      NodeMgr P → P.Transaction → EthClient → List Goroutine → Clock → PendingTx → Round P
  dispatch mgr tx client order clock pending_tx = elim (lookup pending_tx.to mgr.router_map) [
    | some dex_name ↦ from_router mgr (P.gas_price tx) clock pending_tx dex_name
    | none ↦
        if flag_at pending_tx.to mgr.enemies_map
        then from_enemy (record mgr { pending_tx_list = push_window mgr.pending_tx_list tx })
            (P.gas_price tx) clock client order pending_tx
        else respond mgr (P.gas_price tx) clock [] false
  ]

  -- The log line after a signal computes the pending block's number if a transaction is kept.
  unfoldable pub log_signal : NodeMgr P → ℕ → Round P
  log_signal mgr second = elim (last_elem mgr.pending_tx_list) [
    | none ↦ record { mgr = mgr; actions = []; ended = returns tt }
    | some tx ↦ record {
      mgr = mgr;
      actions = [];
      ended = get_pending_block_num mgr.header_ws_list second >>= λ _. returns tt;
    }
  ]

  -- One round of GasPriceAnalyse. What cannot be decoded is logged and passed over.
  unfoldable pub gas_price_analyse : NodeMgr P → Received P → Round P
  gas_price_analyse mgr ctx_done = record {
    mgr = mgr;
    actions = closes_ws ∷ [];
    ended = returns tt;
  }
  gas_price_analyse mgr (pending tx client order clock) = elim (pending_of P tx) [
    | none ↦ record { mgr = mgr; actions = []; ended = returns tt }
    | some pending_tx ↦
        dispatch mgr tx client order clock (record pending_tx { from = P.sender_hex tx })
  ]
  gas_price_analyse mgr (signal_data text second) = elim (P.signal_of text) [
    | none ↦ record { mgr = mgr; actions = []; ended = returns tt }
    | some signal ↦ log_signal (record mgr { signals = push_window mgr.signals signal }) second
  ]

  -- int64 number 0
  abbrev pub is_zero : ℤ → Bool
  is_zero (pos zero) = true
  is_zero (pos (suc n)) = false
  is_zero (negsuc n) = false

  -- One round of SubGethBlockHeader with a new header: number 0 is passed over.
  unfoldable pub sub_geth_block_header : NodeMgr P → Header → NodeMgr P
  sub_geth_block_header mgr new_head =
      if is_zero (big_int64 new_head.number)
      then mgr
      else record mgr { header_ws_list = push_window mgr.header_ws_list new_head }

-- The rounds of the two loops, in the order in which they take place.
pub data Event (P : Platform) : Type 0 where
  head : Header → Event P
  head_ctx_done : Event P
  received : Received P → Event P

module _ (P : Platform) where
  unfoldable pub step : NodeMgr P → Event P → NodeMgr P × List Action
  step mgr (head h) = (sub_geth_block_header P mgr h, [])
  step mgr head_ctx_done = (mgr, closes_ws ∷ [])
  step mgr (received r) = let round = gas_price_analyse P mgr r in (round.mgr, round.actions)

  unfoldable pub run : NodeMgr P → List (Event P) → NodeMgr P × List Action
  run mgr [] = (mgr, [])
  run mgr (e ∷ es) =
      let (mgr', actions) = step mgr e in let (last, more) = run mgr' es in (last, actions ++ more)
