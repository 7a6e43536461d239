-- ===== src/Manager/Loops/Outbids.antt =====
-- GasPriceAnalyse of core/node_mgr.go from a competitor's transaction to the order that answers it.
use mathlib.Core.List.{filter_map}
use dex_executorgo.Prelude.{◌<◌, ◌≡◌, refl, ◌∙◌, true, false, none, some, List, [], ◌∷◌, ◌++◌, All}
use dex_executorgo.Prelude.Int.{ℤ, pos, pos_part, ◌+ℤ◌, ◌≤ℤ◌}
use dex_executorgo.Go.Text.{Text, lit}
use dex_executorgo.Go.Outcome.{returns}
use dex_executorgo.Go.Word.{two64}
use dex_executorgo.Go.Dict.{lookup}
use dex_executorgo.Types.{PendingTx, Signal, Header}
use dex_executorgo.Window.{push_window}
use dex_executorgo.Decoder.CallClient.{EthClient, Goroutine, params_a, params_b}
use dex_executorgo.Decoder.CallClient
use dex_executorgo.Decoder.CallClient.Laws.{IsSchedule, trace_addresses, decode_to_symbol_lem}
use dex_executorgo.Manager.Platform.{Platform, pending_of}
use dex_executorgo.Manager.Signals.Last.{IsOther}
use dex_executorgo.Manager.Block.{last_elem, block_after}
use dex_executorgo.Manager.Trade.{Message}
use dex_executorgo.Manager.Trade.Published.{IsTradable, Answers}
use dex_executorgo.Manager.Rebuild.{Clock, base_gas_price, new_gas_price, rebuild_tx}
use dex_executorgo.Manager.Rebuild.Fee.{rebuild_tx-outbids}
use dex_executorgo.Manager.Loops.{
  NodeMgr, publishes, pending, flag_at, is_empty, published, respond, from_enemy, dispatch,
  gas_price_analyse,
}

module _ (P : Platform) where
  -- A transaction of a competitor, not on the chain yet, whose trace leads to a symbol.
  pub record IsContest (mgr : NodeMgr P) (tx : P.Transaction) (client : EthClient) (symbol : Text)
      : Type 0 where
    pub tx_data : PendingTx
    pub decoded : pending_of P tx ≡ some tx_data
    pub no_router : lookup tx_data.to mgr.router_map ≡ none
    pub competitor : flag_at tx_data.to mgr.enemies_map ≡ true
    pub no_receipt : client.transaction_receipt tx_data.hash ≡ false
    pub others : List Text
    pub traced :
        filter_map
          (λ a. lookup a mgr.pair_symbol_map)
          (trace_addresses (
            client.debug_trace_call
              (params_a (record tx_data { from = P.sender_hex tx }))
              (lit "latest")
              params_b))
        ≡ symbol ∷ others

  -- What the manager has for a symbol: a header, and a signal with no newer one for the symbol, that
  -- can be split and is not late, and whose base price the gas price of the answer exceeds.
  pub record IsReady (mgr : NodeMgr P) (symbol : Text) (signal : Signal) (clock : Clock)
      (gas_price : ℤ) : Type 0 where
    pub header : Header
    pub known : last_elem mgr.header_ws_list ≡ some header
    pub older : List Signal
    pub newer : List Signal
    pub kept : mgr.signals ≡ older ++ signal ∷ newer
    pub fits : signal.symbol ≡ symbol
    pub newest : All (IsOther symbol) newer
    pub in_time : block_after header clock.checked_second ≤ℤ signal.trade_block_num
    pub tradable : IsTradable signal
    pub enough : base_gas_price P.orders P.floats signal ≤ℤ gas_price +ℤ pos 1
    pub small : pos_part (new_gas_price P.orders P.floats signal gas_price) < two64

  -- The message answers the signal and outbids the gas price by one.
  pub record Outbids (signal : Signal) (clock : Clock) (gas_price : ℤ) (m : Message) : Type 0 where
    pub answers :
        Answers P.orders P.floats signal clock.millis
          (new_gas_price P.orders P.floats signal gas_price)
          m
    pub bid :
        pos m.body.info.max_priority_fee_per_gas +ℤ base_gas_price P.orders P.floats signal
        ≡ gas_price +ℤ pos 1

  -- RebuildTx, for the signal that GetLastSignalBySymbol finds.
  rebuild_tx-Outbids :
      (mgr : NodeMgr P) (symbol : Text) (rest : List Text) (signal : Signal) (clock : Clock)
      (gas_price : ℤ)
      → IsReady mgr symbol signal clock gas_price
      → (m : Message) × (rebuild_tx P.orders P.floats mgr.header_ws_list mgr.signals
            (symbol ∷ rest)
            gas_price
            clock
          ≡ returns (m ∷ []))
        × Outbids signal clock gas_price m
  rebuild_tx-Outbids mgr symbol rest signal clock gas_price ready =
      let (m, sent, answers, bid) =
        rebuild_tx-outbids P.orders P.floats mgr.header_ws_list ready.older ready.newer signal rest
          gas_price clock ready.known ready.fits ready.newest ready.in_time ready.tradable
          ready.enough ready.small in
      (m, rw ready.kept sent, record { answers = answers; bid = bid })

  held :
      (l older newer : List Signal) (signal : Signal)
      → l ≡ older ++ signal ∷ newer
      → is_empty l ≡ false
  held l [] newer signal e = rw e refl
  held l (s ∷ older) newer signal e = rw e refl

  -- The end of a round with symbols at hand.
  respond-publishes :
      (mgr : NodeMgr P) (gas_price : ℤ) (clock : Clock) (symbol : Text) (rest : List Text)
      {m : Message}
      → is_empty mgr.signals ≡ false
      → rebuild_tx P.orders P.floats mgr.header_ws_list mgr.signals (symbol ∷ rest) gas_price clock
        ≡ returns (m ∷ [])
      → respond P mgr gas_price clock (symbol ∷ rest) false
        ≡ record { mgr = mgr; actions = publishes m ∷ []; ended = returns tt }
  unfolding respond published
  respond-publishes mgr gas_price clock symbol rest kept sent = rw (kept, sent) refl

  -- The decoder's answer in a contest.
  decode-IsContest :
      (mgr : NodeMgr P) (tx : P.Transaction) (client : EthClient) (symbol : Text)
      {order : List Goroutine}
      → IsSchedule order
      → (c : IsContest mgr tx client symbol)
      → CallClient.decode_to_symbol mgr.pair_symbol_map client order
          (record c.tx_data { from = P.sender_hex tx })
        ≡ (symbol ∷ c.others, false)
  decode-IsContest mgr tx client symbol schedule c =
      decode_to_symbol_lem mgr.pair_symbol_map client (record c.tx_data { from = P.sender_hex tx })
        schedule
      ∙ rw (c.no_receipt, c.traced) refl

  from_enemy-respond :
      (mgr : NodeMgr P) (gas_price : ℤ) (clock : Clock) (client : EthClient)
      (order : List Goroutine) (p : PendingTx) (symbols : List Text) {header : Header}
      → last_elem mgr.header_ws_list ≡ some header
      → CallClient.decode_to_symbol mgr.pair_symbol_map client order p ≡ (symbols, false)
      → from_enemy P mgr gas_price clock client order p
        ≡ respond P mgr gas_price clock symbols false
  unfolding from_enemy
  from_enemy-respond mgr gas_price clock client order p symbols known e =
      rw (known, from_enemy) (rw e refl)

  abbrev kept_tx : NodeMgr P → P.Transaction → NodeMgr P
  kept_tx mgr tx = record mgr { pending_tx_list = push_window mgr.pending_tx_list tx }

  round-from_enemy :
      (mgr : NodeMgr P) (tx : P.Transaction) (client : EthClient) (order : List Goroutine)
      (clock : Clock) (symbol : Text) (c : IsContest mgr tx client symbol)
      → gas_price_analyse P mgr (pending tx client order clock)
        ≡ from_enemy P
            (kept_tx mgr tx)
            (P.gas_price tx)
            clock
            client
            order
            (record c.tx_data { from = P.sender_hex tx })
  unfolding gas_price_analyse dispatch
  round-from_enemy mgr tx client order clock symbol c =
      rw (c.decoded, gas_price_analyse) (rw (c.no_router, dispatch) (rw c.competitor refl))

  -- The whole way: a transaction to a competitor and to no router, which is not on the chain yet and
  -- whose trace leads to a symbol, makes the round keep the transaction and publish exactly one message. It answers the
  -- newest signal for the symbol, and bids one over the competitor, in whichever order the two
  -- requests to the node end. The manager has a header and the signal, which is in time, can be
  -- split, and leaves room for the bid in 64 bits.
  pub round-Outbids :
      (mgr : NodeMgr P) (tx : P.Transaction) (client : EthClient) {order : List Goroutine}
      (clock : Clock) (symbol : Text) (signal : Signal)
      → IsSchedule order
      → IsContest mgr tx client symbol
      → IsReady mgr symbol signal clock (P.gas_price tx)
      → (m : Message) × (gas_price_analyse P mgr (pending tx client order clock) ≡ record {
        mgr = record mgr { pending_tx_list = push_window mgr.pending_tx_list tx };
        actions = publishes m ∷ [];
        ended = returns tt;
      })
        × Outbids signal clock (P.gas_price tx) m
  round-Outbids mgr tx client {order} clock symbol signal schedule c ready =
      let (m, sent, outbids) =
        rebuild_tx-Outbids mgr symbol c.others signal clock (P.gas_price tx) ready in
      (
        m,
        round-from_enemy mgr tx client order clock symbol c
            ∙ from_enemy-respond (kept_tx mgr tx) (P.gas_price tx) clock client order
                (record c.tx_data { from = P.sender_hex tx }) (symbol ∷ c.others) ready.known
                (decode-IsContest mgr tx client symbol schedule c)
            ∙ respond-publishes (kept_tx mgr tx) (P.gas_price tx) clock symbol c.others
                (held mgr.signals ready.older ready.newer signal ready.kept) sent,
        outbids,
      )
