-- ===== src/Manager/Trade.antt =====
-- Trade: the order message that is published for a signal, with a hedge for each step of each path
-- of its depth details.
pub mod Hedges
pub mod Published
pub mod Reordered
use dex_executorgo.Prelude.{
  ℕ, Bool, Option, none, some, List, [], ◌∷◌, ◌++◌, get_elem?, if◌then◌else◌, length,
}
use dex_executorgo.Prelude.Int.{ℤ, pos}
use dex_executorgo.Go.Text.{Text, lit, text_eq, split, replace, to_lower, to_upper}
use dex_executorgo.Go.Outcome.{Outcome, returns, panics, blocks, index_range, or_panic, ◌>>=◌}
use dex_executorgo.Go.Word.{to_uint64, add_int64, big_uint64}
use dex_executorgo.Go.Strconv.{itoa}
use dex_executorgo.Go.Float.{Float64, FloatOps}
use dex_executorgo.Go.Dict.{Dict, lookup}
use dex_executorgo.Types.{Signal, SignalPath, DepthDetail}
use dex_executorgo.Manager.Platform.{OrderLib}
use dex_executorgo.Nats.{data_order_tool}

-- The fields that Trade sets of order.OrderHedge, order.EthInfo and TradingReqInfoWAP.
pub record OrderHedge : Type 0 where
  pub side : ℤ
  pub price_expected : Float64
  pub amount : Float64
  pub expired_time_ms : ℤ
  pub exchange : ℤ
  pub account_id : Text
  pub market : ℤ
  pub type : ℤ
  pub token : Text
  pub quote : Text

pub record EthInfo : Type 0 where
  pub tx_type : ℤ
  pub gas_limit : ℕ
  pub nonce : ℕ
  pub call_data : Text
  pub max_priority_fee_per_gas : ℕ
  pub max_fee_per_gas : ℕ
  pub value : Text

pub record TradingReq : Type 0 where
  pub project_id : Text
  pub req_no : ℤ
  pub hedge : ℤ
  pub trade_type : ℤ
  pub trade_side : ℤ
  pub price_expect : Float64
  pub token : Text
  pub quote : Text
  pub amount : Float64
  pub exchange_id : ℤ
  pub exchange_addr : Text
  pub account_id : Text
  pub market : ℤ
  pub type : ℤ
  pub contract : ℤ
  pub signer : Text
  pub info : EthInfo
  pub hedge_expect : List OrderHedge

-- A message and the subject that it is published on.
pub record Message : Type 0 where
  pub subject : Text
  pub body : TradingReq

-- m[k] of a map of texts, and of a map of maps: the zero value is empty
abbrev pub text_at : Text → Dict Text → Text
text_at k m = elim (lookup k m) [ none ↦ [] | some s ↦ s ]

abbrev pub dict_at : Text → Dict (Dict Text) → Dict Text
dict_at k m = elim (lookup k m) [ none ↦ [] | some d ↦ d ]

module _ (orders : OrderLib) (floats : FloatOps) where
  -- The test on "buy": every other text is a sale.
  unfoldable pub trade_side : Text → ℤ
  trade_side s = if text_eq s (lit "buy") then orders.side_buy else orders.side_sell

  -- The hedge for one step of a path, with the clock's reading in milliseconds.
  unfoldable pub order_hedge :
      Signal → Text → DepthDetail → SignalPath → ℤ → Text → Text → OrderHedge
  order_hedge signal subject detail item now base quote = record {
    side = trade_side (
        text_at (to_lower (replace item.symbol (lit "/") (lit "_") none))
          (dict_at subject signal.symbols_trade_side));
    price_expected = item.price_avg;
    amount = floats.mul detail.consume_ratio detail.amount_sum;
    expired_time_ms = add_int64 (pos 15000) now;
    exchange = orders.exchange item.exchange;
    account_id = lit "ptneurm1";
    market = orders.market item.market;
    type = orders.symbol_type item.symbol_type;
    token = base;
    quote = quote;
  }

  module _ (signal : Signal) (clock : ℕ → ℤ) where
    -- The innermost loop. `clock i` is the reading for the hedge number i. A symbol with no slash
    -- panics at itemTokens[1].
    unfoldable pub hedge_path :
        Text → DepthDetail → List SignalPath → List OrderHedge → Outcome (List OrderHedge)
    hedge_path subject detail [] hedges = returns hedges
    hedge_path subject detail (item ∷ rest) hedges = do
      base ← or_panic index_range (get_elem? (split b'/' item.symbol) 0)
      quote ← or_panic index_range (get_elem? (split b'/' item.symbol) 1)
      let hedge = order_hedge signal subject detail item (clock (length hedges)) base quote
      hedge_path subject detail rest (hedges ++ hedge ∷ [])

    -- The loop over the details of one subject.
    unfoldable pub hedge_details :
        Text → List DepthDetail → List OrderHedge → Outcome (List OrderHedge)
    hedge_details subject [] hedges = returns hedges
    hedge_details subject (detail ∷ rest) hedges = do
      more ← hedge_path subject detail detail.path hedges
      hedge_details subject rest more

    -- The loop over signal.DepthDetails, in the order in which the range meets its entries.
    unfoldable pub hedge_subjects :
        Dict (List DepthDetail) → List OrderHedge → Outcome (List OrderHedge)
    hedge_subjects [] hedges = returns hedges
    hedge_subjects ((subject, details) ∷ rest) hedges = do
      more ← hedge_details subject details hedges
      hedge_subjects rest more

    -- The message for a gas price, the two tokens and the hedges.
    unfoldable pub message : ℤ → Text → Text → List OrderHedge → Message
    message new_gas_price token quote hedges = record {
      subject = data_order_tool;
      body = record {
        project_id = lit "avalanche_v1";
        req_no = signal.regist_id;
        hedge = signal.hedge_id;
        trade_type = orders.taker;
        trade_side = trade_side signal.side;
        price_expect = signal.price_expect;
        token = to_upper token;
        quote = to_lower quote;
        amount = signal.amount_arb;
        exchange_id = orders.avalanche_dex;
        exchange_addr = signal.build_tx.to;
        account_id = lit "avalanche";
        market = orders.spot;
        type = orders.trade_dex;
        contract = orders.spot_normal;
        signer = signal.build_tx.from;
        info = record {
          tx_type = orders.dynamic_fee_tx;
          gas_limit = to_uint64 signal.build_tx.gas;
          nonce = to_uint64 signal.build_tx.nonce;
          call_data = signal.build_tx.call_data;
          max_priority_fee_per_gas = big_uint64 new_gas_price;
          max_fee_per_gas = to_uint64 signal.build_tx.max_fee_per_gas;
          value = itoa signal.build_tx.value;
        };
        hedge_expect = hedges;
      };
    }

    -- Trade. Its effect is the message that it publishes; an error of the publisher is only logged.
    unfoldable pub trade : ℤ → Outcome (List Message)
    trade new_gas_price = do
      token ← or_panic index_range (get_elem? (split b'_' signal.symbol) 0)
      quote ← or_panic index_range (get_elem? (split b'_' signal.symbol) 1)
      hedges ← hedge_subjects signal.depth_details []
      returns (message new_gas_price token quote hedges ∷ [])
