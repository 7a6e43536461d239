-- ===== src/Decoder/Router.antt =====
-- RouterDecoder: the symbols of a swap on a known router. The ABI decoder of go-ethereum and the
-- texts of the two ABIs are parameters: parsing an ABI, finding a method by its id, unpacking the
-- arguments, reading an argument as a TraderJoe path, and the text of an address.
pub mod Laws
use dex_executorgo.Prelude.{
  ℕ, Bool, true, false, Option, none, some, List, [], ◌∷◌, ◌++◌, get_elem?, if◌then◌else◌, length,
}
use dex_executorgo.Go.Text.{Text, lit, text_eq, slice}
use dex_executorgo.Go.Outcome.{
  Outcome, returns, panics, blocks, index_range, slice_bounds, nil_deref, or_panic, ◌>>=◌,
}
use dex_executorgo.Go.Hex.{decode_string}
use dex_executorgo.Go.Dict.{Dict, lookup}
use dex_executorgo.Types.{PendingTx}

pub record AbiLib : Type 1 where
  pub Abi : Type 0
  pub Method : Type 0
  pub Param : Type 0
  pub Address : Type 0
  pub json : Text → Option Abi
  pub method_by_id : Abi → List ℕ → Option Method
  pub unpack : Method → List ℕ → Option (List Param)
  pub token_path : Param → Option (List Address)  -- TraderJoePath.TokenPath, through its JSON
  pub hex_of : Address → Text
  pub univ3_router_abi_data : Text
  pub traderjoe_router_abi_data : Text

pub record RouterDecoder (L : AbiLib) : Type 0 where
  pub addr_tokens : Dict Text
  pub uniswap_v3_router_abi : L.Abi
  pub traderjoe_router_abi : L.Abi

module _ (L : AbiLib) where
  -- NewRouterDecoder; `none` stands for the error and the nil decoder.
  unfoldable pub new_router_decoder : Dict Text → Option (RouterDecoder L)
  new_router_decoder tokens = elim (L.json L.univ3_router_abi_data) [
    | none ↦ none
    | some univ3 ↦ elim (L.json L.traderjoe_router_abi_data) [
      | none ↦ none
      | some traderjoe ↦ some (record {
        addr_tokens = tokens;
        uniswap_v3_router_abi = univ3;
        traderjoe_router_abi = traderjoe;
      })
    ]
  ]

  -- Both orders of the two tokens, if both are known.
  both_symbols : Option Text → Option Text → List Text
  both_symbols (some token0) (some token1) =
      (token0 ++ b'_' ∷ token1) ∷ (token1 ++ b'_' ∷ token0) ∷ []
  both_symbols _ _ = []

  -- path.TokenPath[0] and path.TokenPath[1], which panic on a shorter path
  path_symbols : Dict Text → List L.Address → Outcome (List Text)
  path_symbols tokens path = do
    address0 ← or_panic index_range (get_elem? path 0)
    address1 ← or_panic index_range (get_elem? path 1)
    returns (both_symbols (lookup (L.hex_of address0) tokens) (lookup (L.hex_of address1) tokens))

  -- params[2], read as a path; an argument that is no path gives no symbol.
  third_param : Dict Text → List L.Param → Outcome (List Text)
  third_param tokens params = do
    param ← or_panic index_range (get_elem? params 2)
    elim (L.token_path param) [ none ↦ returns [] | some path ↦ path_symbols tokens path ]

  -- The arguments of the call by its method id, and what is done with them; an unknown method and
  -- arguments that do not unpack give no symbol.
  with_params : L.Abi → List ℕ → List ℕ → (List L.Param → Outcome (List Text)) → Outcome (List Text)
  with_params abi id input use_params = elim (L.method_by_id abi id) [
    | none ↦ returns []
    | some method ↦ elim (L.unpack method input) [
      | none ↦ returns []
      | some params ↦ use_params params
    ]
  ]

  traderjoe_symbols : RouterDecoder L → List ℕ → List ℕ → Outcome (List Text)
  traderjoe_symbols r id input =
      with_params r.traderjoe_router_abi id input (third_param r.addr_tokens)

  -- The branch for avaxuniswap prints the arguments and returns no symbol.
  uniswap_symbols : RouterDecoder L → List ℕ → List ℕ → Outcome (List Text)
  uniswap_symbols r id input =
      with_params r.uniswap_v3_router_abi id input
        λ params. or_panic index_range (get_elem? params 2) >>= λ _. returns []

  -- The branches on the name of the router. A nil decoder panics where a field of it is read.
  decode_method : Option (RouterDecoder L) → Text → List ℕ → List ℕ → Outcome (List Text)
  unfolding traderjoe_symbols uniswap_symbols with_params third_param path_symbols both_symbols
  decode_method r dex_name id input =
      if text_eq dex_name (lit "traderjoe")
      then (or_panic nil_deref r >>= λ decoder. traderjoe_symbols decoder id input)
      else if text_eq dex_name (lit "avaxuniswap")
      then (or_panic nil_deref r >>= λ decoder. uniswap_symbols decoder id input)
      else returns []

  -- The arguments' text is decoded as far as it goes: the error is not looked at.
  decode_input : Option (RouterDecoder L) → Text → Text → List ℕ → Outcome (List Text)
  unfolding decode_method
  decode_input r dex_name input id = do
    rest ← or_panic slice_bounds (slice input 10 (length input))
    decode_method r dex_name id (decode_string rest).bytes

  -- RouterDecoder.DecodeToSymbol
  unfoldable pub decode_to_symbol :
      Option (RouterDecoder L) → Text → PendingTx → Outcome (List Text)
  unfolding decode_input
  decode_to_symbol r dex_name pending_tx = do
    id_text ← or_panic slice_bounds (slice pending_tx.input 2 10)
    let id = decode_string id_text
    if id.failed then returns [] else decode_input r dex_name pending_tx.input id.bytes
