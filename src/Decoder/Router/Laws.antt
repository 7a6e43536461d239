-- ===== src/Decoder/Router/Laws.antt =====
-- What RouterDecoder.DecodeToSymbol can return.
use dex_executorgo.Prelude.{
  ℕ, ◌≡◌, refl, ◌⊎◌, inl, inr, Option, none, some, List, [], ◌∷◌, ◌++◌, get_elem?, length,
  Bool-cases, Option-cases,
}
use dex_executorgo.Go.Text.{Text, lit, text_eq, slice}
use dex_executorgo.Go.Text.Equality.{text_eq_iff}
use dex_executorgo.Go.Outcome.{
  Outcome, returns, panics, blocks, index_range, slice_bounds, or_panic, Yields, Yields-bind,
}
use dex_executorgo.Go.Hex.{decode_string}
use dex_executorgo.Go.Dict.{Dict, lookup}
use dex_executorgo.Types.{PendingTx}
use dex_executorgo.Decoder.Router.{
  AbiLib, RouterDecoder, both_symbols, path_symbols, third_param, with_params, decode_method,
  decode_to_symbol,
}

-- The two orders of one pair of tokens, both configured.
pub data IsPair (tokens : Dict Text) (symbols : List Text) : Type 0 where
  pair :
      (addr0 addr1 token0 token1 : Text)
      → lookup addr0 tokens ≡ some token0
      → lookup addr1 tokens ≡ some token1
      → symbols ≡ (token0 ++ b'_' ∷ token1) ∷ (token1 ++ b'_' ∷ token0) ∷ []
      → IsPair tokens symbols

module _ (L : AbiLib) where
  abbrev pub Fits : Dict Text → List Text → Type 0
  Fits tokens symbols = (symbols ≡ []) ⊎ IsPair tokens symbols

  both_symbols-Fits :
      (tokens : Dict Text) (addr0 addr1 : Text) (t0 t1 : Option Text)
      → lookup addr0 tokens ≡ t0
      → lookup addr1 tokens ≡ t1
      → Fits tokens (both_symbols L t0 t1)
  unfolding both_symbols
  both_symbols-Fits tokens addr0 addr1 none t1 e0 e1 = inl refl
  both_symbols-Fits tokens addr0 addr1 (some token0) none e0 e1 = inl refl
  both_symbols-Fits tokens addr0 addr1 (some token0) (some token1) e0 e1 =
      inr (pair addr0 addr1 token0 token1 e0 e1 refl)

  path_symbols-Fits :
      (tokens : Dict Text) (path : List L.Address)
      → Yields (Fits tokens) (path_symbols L tokens path)
  unfolding path_symbols
  path_symbols-Fits tokens [] = tt
  path_symbols-Fits tokens (a ∷ []) = tt
  path_symbols-Fits tokens (a ∷ b ∷ path) =
      both_symbols-Fits tokens (L.hex_of a) (L.hex_of b) _ _ refl refl

  third_param-Fits :
      (tokens : Dict Text) (params : List L.Param)
      → Yields (Fits tokens) (third_param L tokens params)
  unfolding third_param
  third_param-Fits tokens params =
      Yields-bind (Fits tokens) (or_panic index_range (get_elem? params 2)) _ λ param.
        elim (Option-cases (L.token_path param)) [
          | inl e ↦ rw e (inl refl)
          | inr (path, e) ↦ rw e (path_symbols-Fits tokens path)
        ]

  with_params-Yields :
      (P : List Text → Type 0) (abi : L.Abi) (id input : List ℕ)
      (use_params : List L.Param → Outcome (List Text))
      → P []
      → ((params : List L.Param) → Yields P (use_params params))
      → Yields P (with_params L abi id input use_params)
  unfolding with_params
  with_params-Yields P abi id input use_params nothing each =
      elim (Option-cases (L.method_by_id abi id)) [
        | inl e ↦ rw (e, with_params, Yields) nothing
        | inr (method, e) ↦
            rw (e, with_params, Yields)
              (elim (Option-cases (L.unpack method input)) [
                | inl f ↦ rw (f, Yields) nothing
                | inr (params, f) ↦ rw (f, Yields) (each params)
              ])
      ]

  -- What a call on the router may be turned into.
  abbrev pub Swap : Dict Text → Text → List Text → Type 0
  Swap tokens dex_name symbols =
      (symbols ≡ []) ⊎ ((dex_name ≡ lit "traderjoe") × IsPair tokens symbols)

  module _ (r : RouterDecoder L) (dex_name : Text) where
    Fits-Swap :
        (o : Outcome (List Text))
        → dex_name ≡ lit "traderjoe"
        → Yields (Fits r.addr_tokens) o
        → Yields (Swap r.addr_tokens dex_name) o
    Fits-Swap (returns symbols) e (inl h) = inl h
    Fits-Swap (returns symbols) e (inr h) = inr (e, h)
    Fits-Swap (panics p) e h = tt
    Fits-Swap blocks e h = tt

    decode_method-Swap :
        (id input : List ℕ)
        → Yields (Swap r.addr_tokens dex_name) (decode_method L (some r) dex_name id input)
    unfolding decode_method
    decode_method-Swap id input = elim (Bool-cases (text_eq dex_name (lit "traderjoe"))) [
      | inl e ↦ rw e (
          Fits-Swap _ ((text_eq_iff dex_name (lit "traderjoe")).0 e) (
            with_params-Yields (Fits r.addr_tokens) r.traderjoe_router_abi id input _ (inl refl)
              (third_param-Fits r.addr_tokens)))
      | inr e ↦ rw e (elim (Bool-cases (text_eq dex_name (lit "avaxuniswap"))) [
        | inl f ↦ rw f (
            with_params-Yields (Swap r.addr_tokens dex_name) r.uniswap_v3_router_abi id input _
              (inl refl)
              (λ params.
                Yields-bind _ (or_panic index_range (get_elem? params 2)) _ (λ _. inl refl)))
        | inr f ↦ rw f (inl refl)
      ])
    ]

    -- If the decoder returns symbols at all, the router is traderjoe and the symbols are the two
    -- orders of one pair of configured tokens; for avaxuniswap and any other name there are none.
    pub decode_to_symbol-Swap :
        (tx : PendingTx)
        → Yields (Swap r.addr_tokens dex_name) (decode_to_symbol L (some r) dex_name tx)
    unfolding decode_to_symbol
    decode_to_symbol-Swap tx =
        Yields-bind _ (or_panic slice_bounds (slice tx.input 2 10)) _ λ id_text.
          elim (Bool-cases (decode_string id_text).failed) [
            | inl e ↦ rw e (inl refl)
            | inr e ↦ rw e (
                Yields-bind _ (or_panic slice_bounds (slice tx.input 10 (length tx.input))) _
                  λ rest.
                    decode_method-Swap (decode_string id_text).bytes (decode_string rest).bytes)
          ]
