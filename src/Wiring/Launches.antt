-- ===== src/Wiring/Launches.antt =====
-- main.go: what main starts for each chain of its configuration.
use dex_executorgo.Prelude.{
  ◌≡◌, refl, ap, ◌∙◌, ◌⊎◌, inl, inr, Bool, true, false, ◌&&◌, not, Option, none, some, List, [],
  ◌∷◌, arith, if◌then◌else◌, Bool-cases,
}
use dex_executorgo.Go.Text.{Text, lit, replace, text_eq, split, to_lower}
use dex_executorgo.Go.Text.Split.{is_free, split_free, split_held}
use dex_executorgo.Go.Outcome.{Outcome, returns, panics, blocks, index_range, ◌>>=◌}
use dex_executorgo.Go.Dict.{Dict, lookup, insert, lookup-insert}
use dex_executorgo.Config.{Pair, ChainItem}
use dex_executorgo.Wiring.{
  chain_name, pair_symbol, pair_symbol_map, Launch, at_key, signal_key, new_router, addr_tokens,
  enemies_map, launch,
}
use dex_executorgo.Wiring.Pairs.{pair_symbol-panics}

-- The symbol of a key, where pair_symbol returns one.
abbrev pub symbol_of : Outcome Text → Option Text
symbol_of (returns symbol) = some symbol
symbol_of (panics p) = none
symbol_of blocks = none

-- Every key has an @.
abbrev pub all_keys : Dict Pair → Bool
all_keys [] = true
all_keys ((s, pair) ∷ rest) = not (is_free b'@' s) && all_keys rest

-- The symbol of the last pair with an address, letter case of the contract aside.
abbrev pub symbol_at : Text → Dict Pair → Option Text → Option Text
symbol_at a [] old = old
symbol_at a ((s, pair) ∷ rest) old =
    symbol_at a rest (if text_eq (to_lower pair.contract) a then symbol_of (pair_symbol s) else old)

pair_symbol-returns :
    (s : Text) → is_free b'@' s ≡ false → (symbol : Text) × (pair_symbol s ≡ returns symbol)
pair_symbol-returns s h =
    let (p, q, ps, at) = split_held b'@' s h in
    (to_lower (replace q (lit "/") (lit "_") (some 1)), unfold pair_symbol in rw at refl)

-- A table of symbols that answers as the pairs say.
abbrev pub Symbols : Outcome (Dict Text) → (Text → Option Text) → Type 0
Symbols o symbols =
    (table : Dict Text) × (o ≡ returns table) × ((a : Text) → lookup a table ≡ symbols a)

insert-symbol :
    (s : Text) (pair : Pair) (table : Dict Text) (a : Text) {symbol : Text}
    → pair_symbol s ≡ returns symbol
    → lookup a (insert (to_lower pair.contract) symbol table)
      ≡ (if text_eq (to_lower pair.contract) a then symbol_of (pair_symbol s) else lookup a table)
insert-symbol s pair table a {symbol} e =
    lookup-insert (to_lower pair.contract) a symbol table ∙ rw e refl

pair_symbol_map-step :
    (s : Text) (pair : Pair) (rest : Dict Pair) (table : Dict Text) {symbol : Text}
    → pair_symbol s ≡ returns symbol
    → pair_symbol_map ((s, pair) ∷ rest) table
      ≡ pair_symbol_map rest (insert (to_lower pair.contract) symbol table)
unfolding pair_symbol_map
pair_symbol_map-step s pair rest table {symbol} e =
    ap (λ o. o >>= λ symbol. pair_symbol_map rest (insert (to_lower pair.contract) symbol table)) e

pair_symbol_map-Symbols :
    (pairs : Dict Pair) (table : Dict Text)
    → all_keys pairs ≡ true
    → Symbols (pair_symbol_map pairs table) (λ a. symbol_at a pairs (lookup a table))
pair_symbol_map-Symbols [] table h = (table, unfold pair_symbol_map in refl, λ a. refl)
pair_symbol_map-Symbols ((s, pair) ∷ rest) table h =
    let (symbol, e) = pair_symbol-returns s (ground arith) in
    let (last, loaded, at) =
      pair_symbol_map-Symbols rest (insert (to_lower pair.contract) symbol table) (ground arith) in
    (
      last,
      pair_symbol_map-step s pair rest table e ∙ loaded,
      λ a. at a ∙ ap (symbol_at a rest) (insert-symbol s pair table a e),
    )

pair_symbol_map-panics :
    (pairs : Dict Pair) (table : Dict Text)
    → all_keys pairs ≡ false
    → pair_symbol_map pairs table ≡ panics index_range
pair_symbol_map-panics [] table h = absurd (ground arith)
pair_symbol_map-panics ((s, pair) ∷ rest) table h = elim (Bool-cases (is_free b'@' s)) [
  | inl e ↦
      unfold pair_symbol_map in
      ap (λ o. o >>= λ symbol. pair_symbol_map rest (insert (to_lower pair.contract) symbol table))
        (pair_symbol-panics s e)
  | inr e ↦
      let (symbol, found) = pair_symbol-returns s e in
      pair_symbol_map-step s pair rest table found
      ∙ pair_symbol_map-panics rest (insert (to_lower pair.contract) symbol table) (ground arith)
]

-- If every pair of a chain has an @ in its key, the table that main builds has, for an address, the
-- symbol of the last pair whose contract in lower case is that address; if some key has no @, main
-- panics.
pub pair_symbol_map_lem :
    (pairs : Dict Pair)
    → ((all_keys pairs ≡ true) × Symbols (pair_symbol_map pairs []) (λ a. symbol_at a pairs none))
      ⊎ ((all_keys pairs ≡ false) × (pair_symbol_map pairs [] ≡ panics index_range))
unfolding lookup
pair_symbol_map_lem pairs = elim (Bool-cases (all_keys pairs)) [
  | inl h ↦ inl (h, pair_symbol_map-Symbols pairs [] h)
  | inr h ↦ inr (h, pair_symbol_map-panics pairs [] h)
]

abbrev first_of : List Text → Text
first_of [] = []
first_of (p ∷ ps) = p

-- The name of a chain: its key up to the first underscore.
abbrev pub chain_of_key : Text → Text
chain_of_key k = first_of (split b'_' k)

pub chain_name_lem : (k : Text) → chain_name k ≡ returns (chain_of_key k)
unfolding chain_name
chain_name_lem k = elim (Bool-cases (is_free b'_' k)) [
  | inl e ↦ rw (split_free b'_' k e) refl
  | inr e ↦ let (p, q, ps, at) = split_held b'_' k e in rw at refl
]

module _ (chain_enemies : Dict (List Text)) (chain_pairs : Dict (Dict Pair)) where
  abbrev pub pairs_of_key : Text → Dict Pair
  pairs_of_key k = at_key (lookup (chain_of_key k) chain_pairs)

  -- What a chain is started with.
  pub record IsStarted (k : Text) (item : ChainItem) (l : Launch) : Type 0 where
    pub project : l.project ≡ k
    pub subject : l.subject ≡ signal_key (chain_of_key k) k
    pub rpc : l.rpc_url ≡ item.endpoint
    pub node : l.ws_url ≡ item.ws_endpoint
    pub tokens : l.tokens ≡ addr_tokens item.tokens []
    pub routers : l.routers ≡ new_router item.router []
    pub enemies : l.enemies ≡ enemies_map (at_key (lookup (chain_of_key k) chain_enemies)) []
    pub symbols : (a : Text) → lookup a l.pair_symbols ≡ symbol_at a (pairs_of_key k) none

  -- Every pair of every chain has an @ in its key.
  abbrev pub all_chains : Dict ChainItem → Bool
  all_chains [] = true
  all_chains ((k, item) ∷ chains) = all_keys (pairs_of_key k) && all_chains chains

  pub launch-IsStarted :
      (k : Text) (item : ChainItem)
      → all_keys (pairs_of_key k) ≡ true
      → (l : Launch) × (launch chain_enemies chain_pairs k item ≡ returns l) × IsStarted k item l
  launch-IsStarted k item h =
      let (table, loaded, at) = pair_symbol_map-Symbols (pairs_of_key k) [] h in
      (
        record {
          project = k;
          subject = signal_key (chain_of_key k) k;
          rpc_url = item.endpoint;
          ws_url = item.ws_endpoint;
          routers = new_router item.router [];
          tokens = addr_tokens item.tokens [];
          enemies = enemies_map (at_key (lookup (chain_of_key k) chain_enemies)) [];
          pair_symbols = table;
        },
        unfold launch in rw (chain_name_lem k) (rw loaded refl),
        record {
          project = refl;
          subject = refl;
          rpc = refl;
          node = refl;
          tokens = refl;
          routers = refl;
          enemies = refl;
          symbols = unfold lookup in at;
        },
      )
