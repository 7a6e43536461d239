-- ===== src/Config.antt =====
-- config/config.go: the configured pairs of each chain, from the files of a directory. Reading the
-- directory and the files, and decoding JSON, are parameters.
pub mod Pairs
use dex_executorgo.Prelude.{Bool, Option, none, some, List, [], ◌∷◌, get_elem?, if◌then◌else◌}
use dex_executorgo.Prelude.Int.{ℤ}
use dex_executorgo.Go.Text.{Text, split}
use dex_executorgo.Go.Outcome.{Outcome, returns, panics, index_range, explicit, or_panic, ◌>>=◌}
use dex_executorgo.Go.Float.{Float64}
use dex_executorgo.Go.Dict.{Dict, insert}

pub record Pair : Type 0 where
  pub contract : Text
  pub token0 : Text
  pub token1 : Text
  pub reverse_token_order : Bool
  pub raw_fee : ℤ
  pub fee : Float64
  pub proto : Text
  pub factory : Text
  pub index : ℤ
  pub tick_spacing : ℤ
  pub bin_step : ℤ
  pub base_factor : ℤ
  pub filter_period : ℤ
  pub decay_period : ℤ
  pub reduction_factor : ℤ
  pub variable_fee_control : ℤ
  pub max_volatility_accumulator : ℤ

-- What the program reads of a chain's configuration (clients/config, TtChainItem).
pub record ChainItem : Type 0 where
  pub endpoint : Text
  pub ws_endpoint : Text
  pub router : Dict Text
  pub tokens : Dict Text  -- the token's address, by its name

-- An entry of the directory, with what os.ReadFile gives for it: `none` is its error.
pub record FileInfo : Type 0 where
  pub name : Text
  pub is_dir : Bool
  pub content : Option Text

module _ (unmarshal : Text → Option (Dict Pair)) where
  -- The body of the loop: a file that cannot be read or decoded panics.
  unfoldable pub load_file : FileInfo → Dict (Dict Pair) → Outcome (Dict (Dict Pair))
  load_file fi table = if fi.is_dir then returns table else do
    content ← or_panic explicit fi.content
    pairs ← or_panic explicit (unmarshal content)
    chain ← or_panic index_range (get_elem? (split b'.' fi.name) 0)
    returns (insert chain pairs table)

  -- The loop, in the order of the directory.
  unfoldable pub load_files : List FileInfo → Dict (Dict Pair) → Outcome (Dict (Dict Pair))
  load_files [] table = returns table
  load_files (fi ∷ rest) table = do more ← load_file fi table; load_files rest more

  -- LoadPairsConfig; `none` is the error of reading the directory.
  unfoldable pub load_pairs_config : Option (List FileInfo) → Outcome (Dict (Dict Pair))
  unfolding load_file load_files
  load_pairs_config rd = do entries ← or_panic explicit rd; load_files entries []

-- DexExecutorConfig, without the broker's part.
pub record DexExecutorConfig : Type 0 where
  pub log_path : Text
  pub log_level : Text
  pub env : Text
  pub is_test : Bool
  pub proxy_url : Text
  pub chain_config : Dict ChainItem
  pub chain_enemies : Dict (List Text)
  pub chain_pairs : Dict (Dict Pair)

-- LoadConfigFile, with what the two loaders of other packages give for the file and what is in the
-- directory of pairs; `none` is an error, and panics.
unfoldable pub load_config_file :
    (Text → Option (Dict Pair))
    → Option DexExecutorConfig
    → Option (Dict ChainItem)
    → Option (List FileInfo)
    → Outcome DexExecutorConfig
unfolding load_pairs_config
load_config_file unmarshal loaded chain_list rd = do
  config ← or_panic explicit loaded
  chains ← or_panic explicit chain_list
  pairs ← load_pairs_config unmarshal rd
  returns (record config { chain_config = chains; chain_pairs = pairs })
