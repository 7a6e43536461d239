-- ===== src/Tests/Data.antt =====
-- The concrete data that the runs share: numbers in place of float64 values and of transactions.
use dex_executorgo.Prelude.{ℕ, suc, none, some, List, [], ◌∷◌, ◌==◌, if◌then◌else◌}
use dex_executorgo.Prelude.Int.{ℤ, pos}
use dex_executorgo.Go.Text.{Text, lit}
use dex_executorgo.Go.Float.{Float64, bits, FloatOps}
use dex_executorgo.Go.Json.{null}
use dex_executorgo.Config.{ChainItem}
use dex_executorgo.Tests.Values.{json_of_pending_tx}
use dex_executorgo.Types.{
  PendingTx, Signal, zero_signal, SignalPath, DepthDetail, Header, CallsRes, calls_res, Calls,
  no_calls, call_then,
}
use dex_executorgo.Decoder.Router.{AbiLib}
use dex_executorgo.Manager.Platform.{OrderLib, Platform}

abbrev float_value : Float64 → ℤ
float_value (bits n) = pos n

abbrev pub floats : FloatOps
floats = record { mul = λ a b. a; pow = λ a b. a; float_int64 = float_value }

abbrev pub orders : OrderLib
orders = record {
  side_buy = pos 1;
  side_sell = pos 2;
  taker = pos 3;
  avalanche_dex = pos 4;
  spot = pos 5;
  trade_dex = pos 6;
  spot_normal = pos 7;
  dynamic_fee_tx = pos 8;
  exchange = λ n. n;
  market = λ n. n;
  symbol_type = λ n. n;
}

-- One method for every id; its arguments are the bytes behind the id, and an argument is the path
-- of the two tokens whose addresses are the texts of that byte and of the next number.
abbrev pub abi : AbiLib
abi = record {
  Abi = Unit {0};
  Method = Unit {0};
  Param = ℕ;
  Address = ℕ;
  json = λ t. some tt;
  method_by_id = λ a id. some tt;
  unpack = λ m input. some input;
  token_path = λ p. some (p ∷ suc p ∷ []);
  hex_of = λ a. a ∷ [];
  univ3_router_abi_data = [];
  traderjoe_router_abi_data = [];
}

abbrev pub pending_tx : Text → Text → PendingTx
pending_tx to input = record {
  type = [];
  chain_id = [];
  nonce = [];
  from = [];
  to = to;
  gas = [];
  gas_price = null;
  max_priority_fee_per_gas = [];
  max_fee_per_gas = [];
  value = [];
  input = input;
  access_list = [];
  v = [];
  r = [];
  s = [];
  y_parity = [];
  hash = lit "0x7e";
}

abbrev path_step : Text → SignalPath
path_step symbol = record {
  price = bits 1;
  amount = bits 2;
  symbol = symbol;
  price_avg = bits 3;
  amount_sum = bits 4;
  exchange = pos 11;
  market = pos 12;
  symbol_type = pos 13;
  price_expect = bits 5;
}

abbrev detail : List SignalPath → DepthDetail
detail path = record {
  exchange = pos 11;
  price_avg = bits 1;
  amount_sum = bits 2;
  amount_usdt = bits 3;
  path = path;
  last_amount_sum = bits 4;
  last_price_avg = bits 5;
  amount = bits 6;
  price = bits 7;
  amount_consume = bits 8;
  total_ratio = bits 9;
  consume_ratio = bits 10;
  price_expect = bits 11;
}

-- A signal for avax_usdc with two steps in one path, for the block number 50.
abbrev pub avax_signal : Signal
avax_signal = record zero_signal {
  symbol = lit "avax_usdc";
  base_gas_price = bits 25;
  trade_block_num = pos 50;
  regist_id = pos 77;
  hedge_id = pos 78;
  side = lit "buy";
  depth_details =
      (lit "binance", detail (path_step (lit "AVAX/USDT") ∷ path_step (lit "USDC/USDT") ∷ []) ∷ [])
      ∷ [];
  symbols_trade_side = (lit "binance", (lit "avax_usdt", lit "buy") ∷ []) ∷ [];
}

abbrev pub eth_signal : Signal
eth_signal = record zero_signal { symbol = lit "eth_usdc"; regist_id = pos 5 }

abbrev pub header_of : ℕ → Header
header_of n = record { number = n; time = 1700000000 }

abbrev pub enemy : Text
enemy = lit "0xee"

-- A transaction is the gas price that it bids; the transaction 0 cannot be decoded.
abbrev pub platform : Platform
platform = record {
  abi = abi;
  orders = orders;
  floats = floats;
  Transaction = ℕ;
  marshal_json =
      λ tx. if tx == 0 then none else some (json_of_pending_tx (pending_tx enemy (lit "0xd1")));
  sender_hex = λ tx. lit "0xaa";
  gas_price = λ tx. pos tx;
  signal_of = λ t. elim t [ [] ↦ none | c ∷ cs ↦ some avax_signal ];
}

-- A trace of three calls: one to 0xa1, which calls 0xa2, and one to 0xa3.
abbrev call_to : Text → Calls → CallsRes
call_to to call = calls_res [] [] [] to [] [] [] [] call

abbrev pub trace : CallsRes
trace =
    call_to (lit "0xa1") (
      call_then (call_to (lit "0xa2") no_calls)
        (call_then (call_to (lit "0xa3") no_calls) no_calls))

-- A configured chain with one router.
abbrev pub item_at : Text → ChainItem
item_at endpoint = record {
  endpoint = endpoint;
  ws_endpoint = lit "wss://node";
  router = (lit "traderjoe", lit "0xA1") ∷ [];
  tokens = [];
}
