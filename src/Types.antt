-- ===== src/Types.antt =====
-- core/type.go: the messages that the program reads and writes, with the fields of the source.
-- An int or int64 is a ℤ, a big number of an address is what it stands for, and a map is a list of
-- entries (Go/Dict).
pub mod Tags
use dex_executorgo.Prelude.{ℕ, Bool, List, []}
use dex_executorgo.Prelude.Int.{ℤ, pos}
use dex_executorgo.Go.Text.{Text}
use dex_executorgo.Go.Dict.{Dict}
use dex_executorgo.Go.Float.{Float64, float_zero}
use dex_executorgo.Go.Json.{Json}

pub record WsRequest : Type 0 where
  pub id : ℤ
  pub json_rpc : Float64
  pub method : Text
  pub params : List Text

pub record PendingTx : Type 0 where
  pub type : Text
  pub chain_id : Text
  pub nonce : Text
  pub from : Text
  pub to : Text
  pub gas : Text
  pub gas_price : Json
  pub max_priority_fee_per_gas : Text
  pub max_fee_per_gas : Text
  pub value : Text
  pub input : Text
  pub access_list : List Json
  pub v : Text
  pub r : Text
  pub s : Text
  pub y_parity : Text
  pub hash : Text

-- The result of a head notification.
pub record HeadResult : Type 0 where
  pub parent_hash : Text
  pub sha3_uncles : Text
  pub miner : Text
  pub state_root : Text
  pub transactions_root : Text
  pub receipts_root : Text
  pub logs_bloom : Text
  pub difficulty : Text
  pub number : ℤ
  pub gas_limit : Text
  pub gas_used : Text
  pub timestamp : ℤ
  pub extra_data : Text
  pub mix_hash : Text
  pub nonce : Text
  pub ext_data_hash : Text
  pub base_fee_per_gas : Text
  pub ext_data_gas_used : Text
  pub block_gas_cost : Text
  pub blob_gas_used : Json
  pub excess_blob_gas : Json
  pub parent_beacon_block_root : Json
  pub hash : Text

pub record HeadParams : Type 0 where
  pub subscription : Text
  pub result : HeadResult

pub record HeadRsp : Type 0 where
  pub jsonrpc : Text
  pub method : Text
  pub params : HeadParams

pub record SignalPath : Type 0 where
  pub price : Float64
  pub amount : Float64
  pub symbol : Text
  pub price_avg : Float64
  pub amount_sum : Float64
  pub exchange : ℤ
  pub market : ℤ
  pub symbol_type : ℤ
  pub price_expect : Float64

pub record BuildTx : Type 0 where
  pub nonce : ℤ
  pub from : Text
  pub to : Text
  pub value : ℤ
  pub gas : ℤ
  pub gas_price : ℤ
  pub max_priority_fee_per_gas : ℤ
  pub max_fee_per_gas : ℤ
  pub call_data : Text
  pub chain_id : ℤ

pub record DepthDetail : Type 0 where
  pub exchange : ℤ
  pub price_avg : Float64
  pub amount_sum : Float64
  pub amount_usdt : Float64
  pub path : List SignalPath
  pub last_amount_sum : Float64
  pub last_price_avg : Float64
  pub amount : Float64
  pub price : Float64
  pub amount_consume : Float64
  pub total_ratio : Float64
  pub consume_ratio : Float64
  pub price_expect : Float64

pub record Signal : Type 0 where
  pub server : Text
  pub dex_market : Text
  pub symbol : Text
  pub build_tx : BuildTx
  pub update_time : Float64
  pub signal_block_num : ℤ
  pub signal_block_time : Float64
  pub max_gas_price : Float64
  pub base_gas_price : Float64
  pub trade_block_num : ℤ
  pub regist_id : ℤ
  pub hedge_id : ℤ
  pub depth_details : Dict (List DepthDetail)
  pub symbols_trade_side : Dict (Dict Text)
  pub price_expect : Float64
  pub side : Text
  pub amount_arb : Float64
  pub amount_entry : Float64

-- The zero value of Signal, which a named result of that type starts from.
abbrev pub zero_signal : Signal
zero_signal = record {
  server = [];
  dex_market = [];
  symbol = [];
  build_tx = record {
    nonce = pos 0;
    from = [];
    to = [];
    value = pos 0;
    gas = pos 0;
    gas_price = pos 0;
    max_priority_fee_per_gas = pos 0;
    max_fee_per_gas = pos 0;
    call_data = [];
    chain_id = pos 0;
  };
  update_time = float_zero;
  signal_block_num = pos 0;
  signal_block_time = float_zero;
  max_gas_price = float_zero;
  base_gas_price = float_zero;
  trade_block_num = pos 0;
  regist_id = pos 0;
  hedge_id = pos 0;
  depth_details = [];
  symbols_trade_side = [];
  price_expect = float_zero;
  side = [];
  amount_arb = float_zero;
  amount_entry = float_zero;
}

pub record ParamsA : Type 0 where
  pub from : Text
  pub to : Text
  pub call_data : Text

pub record TracerConfig : Type 0 where
  pub with_log : Bool
  pub only_top_call : Bool

pub record Tracer : Type 0 where
  pub tracer : Text
  pub tracer_config : TracerConfig

-- A traced call and the calls that it made, in order.
mutual
  pub data CallsRes : Type 0 where
    calls_res : (from gas gas_used to input output value type : Text) → Calls → CallsRes

  pub data Calls : Type 0 where
    no_calls : Calls
    call_then : CallsRes → Calls → Calls

-- What the program reads of go-ethereum's types.Header: a block number, not negative, and the
-- time in seconds, a uint64.
pub record Header : Type 0 where
  pub number : ℕ
  pub time : ℕ
