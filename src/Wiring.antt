-- ===== src/Wiring.antt =====
-- main.go: what main sets up for each configured chain: the subject that it subscribes to, and the
-- tables that it hands to the chain's manager.
pub mod Subject
pub mod Tables
pub mod Pairs
pub mod Launches
use dex_executorgo.Prelude.{ℕ, ◌≡◌, Bool, true, Option, none, some, List, [], ◌∷◌, map, get_elem?}
use dex_executorgo.Go.Text.{Text, lit, split, replace, to_lower}
use dex_executorgo.Go.Outcome.{Outcome, index_range, returns, panics, blocks, or_panic, ◌>>=◌}
use dex_executorgo.Go.Dict.{Dict, lookup, insert}
use dex_executorgo.Config.{Pair, ChainItem}
use dex_executorgo.Nats.{nats_signal_subject}

-- strings.Split(k, "_")[0]
unfoldable pub chain_name : Text → Outcome Text
chain_name k = or_panic index_range (get_elem? (split b'_' k) 0)

-- The subject that the chain's signals arrive on.
unfoldable pub signal_key : Text → Text → Text
signal_key chain k =
    replace (replace nats_signal_subject (lit "{{Chain}}") chain none) (lit "{{ProjectId}}") k none

-- for kk, vv := range v.Router { newRouter[vv] = kk }
unfoldable pub new_router : Dict Text → Dict Text → Dict Text
new_router [] table = table
new_router ((kk, vv) ∷ rest) table = new_router rest (insert vv kk table)

-- for name, token := range v.Tokens { addrTokens[token.Address] = name }
unfoldable pub addr_tokens : Dict Text → Dict Text → Dict Text
addr_tokens [] table = table
addr_tokens ((name, address) ∷ rest) table = addr_tokens rest (insert address name table)

-- The loop that fills enemiesMap.
unfoldable pub enemies_map : List Text → Dict Bool → Dict Bool
enemies_map [] table = table
enemies_map (addr ∷ rest) table = enemies_map rest (insert (to_lower addr) true table)

-- "joeswap@AVAX/USDC" to "avax_usdc"; a key with no @ panics.
unfoldable pub pair_symbol : Text → Outcome Text
pair_symbol s = do
  symbol ← or_panic index_range (get_elem? (split b'@' s) 1)
  returns (to_lower (replace symbol (lit "/") (lit "_") (some 1)))

-- The loop that fills pairSymbolMap.
unfoldable pub pair_symbol_map : Dict Pair → Dict Text → Outcome (Dict Text)
pair_symbol_map [] table = returns table
pair_symbol_map ((s, pair) ∷ rest) table = do
  symbol ← pair_symbol s
  pair_symbol_map rest (insert (to_lower pair.contract) symbol table)

-- What one chain is started with: the arguments of StartNatsSubscribe and of NewNodeMgr.
pub record Launch : Type 0 where
  pub project : Text
  pub subject : Text
  pub rpc_url : Text
  pub ws_url : Text
  pub routers : Dict Text
  pub tokens : Dict Text
  pub enemies : Dict Bool
  pub pair_symbols : Dict Text

-- m[k] of a map whose zero value is empty
abbrev pub at_key {ℓ} : {A : Type ℓ} → Option (List A) → List A
at_key none = []
at_key (some l) = l

-- The body of main's loop for the chain k.
unfoldable pub launch : Dict (List Text) → Dict (Dict Pair) → Text → ChainItem → Outcome Launch
launch chain_enemies chain_pairs k item = do
  chain ← chain_name k
  symbols ← pair_symbol_map (at_key (lookup chain chain_pairs)) []
  returns (record {
    project = k;
    subject = signal_key chain k;
    rpc_url = item.endpoint;
    ws_url = item.ws_endpoint;
    routers = new_router item.router [];
    tokens = addr_tokens item.tokens [];
    enemies = enemies_map (at_key (lookup chain chain_enemies)) [];
    pair_symbols = symbols;
  })
