-- ===== src/Start.antt =====
-- The start of the managers: NewDexNodeClient of core/ethwebsocket.go, NewNodeMgr of
-- core/node_mgr.go, and main.go's loop with both. ethclient.Dial is a parameter.
pub mod Chains
use dex_executorgo.Prelude.{Option, none, some, List, [], ◌∷◌}
use dex_executorgo.Go.Text.{Text}
use dex_executorgo.Go.Outcome.{Outcome, returns, nil_deref, or_panic, ◌>>=◌}
use dex_executorgo.Go.Dict.{Dict}
use dex_executorgo.Config.{Pair, ChainItem, DexExecutorConfig}
use dex_executorgo.Wiring.{Launch, launch}
use dex_executorgo.NodeClient.{NodeClient}
use dex_executorgo.Decoder.Router.{new_router_decoder}
use dex_executorgo.Manager.Platform.{Platform}
use dex_executorgo.Manager.Loops.{NodeMgr}

-- `dial` is the error of ethclient.Dial for a URL.
module _ (dial : Text → Option Text) where
  -- NewDexNodeClient; `none` stands for the error and the nil client.
  unfoldable pub new_dex_node_client : Text → Text → Option NodeClient
  new_dex_node_client rpc_url ws_url = elim (dial rpc_url) [
    | some message ↦ none
    | none ↦ elim (dial ws_url) [
      | some message ↦ none
      | none ↦ some (record { rpc_url = rpc_url; ws_endpoint = ws_url; header_ws_list = [] })
    ]
  ]

-- A manager with its client.
pub record Started (P : Platform) : Type 0 where
  pub client : NodeClient
  pub mgr : NodeMgr P

module _ (P : Platform) (dial : Text → Option Text) where
  -- NewNodeMgr. The errors of the client and of the decoder are only logged: nodeCli.client then
  -- panics on a nil client, and a nil decoder is kept.
  unfoldable pub new_node_mgr : Launch → Outcome (Started P)
  unfolding new_dex_node_client new_router_decoder
  new_node_mgr l = do
    let r_decoder = new_router_decoder P.abi l.tokens
    client ← or_panic nil_deref (new_dex_node_client dial l.rpc_url l.ws_url)
    returns (record {
      client = client;
      mgr = record {
        router_map = l.routers;
        enemies_map = l.enemies;
        pending_tx_list = [];
        header_ws_list = [];
        signals = [];
        r_decoder = r_decoder;
        pair_symbol_map = l.pair_symbols;
      };
    })

  module _ (chain_enemies : Dict (List Text)) (chain_pairs : Dict (Dict Pair)) where
    -- main's loop, with the manager of each chain.
    unfoldable pub start_all : Dict ChainItem → Outcome (List (Started P))
    unfolding launch new_node_mgr
    start_all [] = returns []
    start_all ((k, item) ∷ rest) = do
      l ← launch chain_enemies chain_pairs k item
      first ← new_node_mgr l
      others ← start_all rest
      returns (first ∷ others)

  -- main, on the loaded configuration.
  unfoldable pub main : DexExecutorConfig → Outcome (List (Started P))
  unfolding start_all
  main config = start_all config.chain_enemies config.chain_pairs config.chain_config
