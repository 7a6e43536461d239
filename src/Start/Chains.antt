-- ===== src/Start/Chains.antt =====
-- main.go with NewNodeMgr of core/node_mgr.go: which managers are started.
use dex_executorgo.Prelude.{
  ◌≡◌, refl, ap, ◌∙◌, ◌⊎◌, inl, inr, Bool, true, false, ◌&&◌, Option, none, some, List, [], ◌∷◌,
  arith, Bool-cases,
}
use dex_executorgo.Go.Text.{Text}
use dex_executorgo.Go.Outcome.{returns, panics, nil_deref, ◌>>=◌}
use dex_executorgo.Go.Dict.{Dict, lookup}
use dex_executorgo.Config.{Pair, ChainItem}
use dex_executorgo.Wiring.{at_key, Launch, launch, new_router, enemies_map, addr_tokens}
use dex_executorgo.Wiring.Launches.{
  chain_of_key, symbol_at, pairs_of_key, all_chains, IsStarted, launch-IsStarted,
}
use dex_executorgo.Decoder.Router.{new_router_decoder}
use dex_executorgo.Manager.Platform.{Platform}
use dex_executorgo.Manager.Loops.History.{IsFresh}
use dex_executorgo.Start.{new_dex_node_client, Started, new_node_mgr, start_all}

module _ (dial : Text → Option Text) where
  abbrev is_none {ℓ} : {A : Type ℓ} → Option A → Bool
  is_none none = true
  is_none (some a) = false

  -- Both endpoints of a chain can be dialled.
  abbrev pub dials : Text → Text → Bool
  dials rpc ws = is_none (dial rpc) && is_none (dial ws)

  abbrev pub all_dialled : Dict ChainItem → Bool
  all_dialled [] = true
  all_dialled ((k, item) ∷ chains) = dials item.endpoint item.ws_endpoint && all_dialled chains

  new_dex_node_client-dials :
      (rpc ws : Text)
      → dials rpc ws ≡ true
      → new_dex_node_client dial rpc ws
        ≡ some (record { rpc_url = rpc; ws_endpoint = ws; header_ws_list = [] })
  unfolding new_dex_node_client
  new_dex_node_client-dials rpc ws h = ground arith

  new_dex_node_client-fails :
      (rpc ws : Text) → dials rpc ws ≡ false → new_dex_node_client dial rpc ws ≡ none
  unfolding new_dex_node_client
  new_dex_node_client-fails rpc ws h = ground arith

module _ (P : Platform) (dial : Text → Option Text) (chain_enemies : Dict (List Text))
    (chain_pairs : Dict (Dict Pair)) where
  -- The manager that a chain is started with: nothing seen yet, and the tables of the chain.
  pub record IsManager (k : Text) (item : ChainItem) (s : Started P) : Type 0 where
    pub fresh : IsFresh P s.mgr
    pub routers : s.mgr.router_map ≡ new_router item.router []
    pub competitors :
        s.mgr.enemies_map ≡ enemies_map (at_key (lookup (chain_of_key k) chain_enemies)) []
    pub decoder : s.mgr.r_decoder ≡ new_router_decoder P.abi (addr_tokens item.tokens [])
    pub symbols :
        (a : Text)
        → lookup a s.mgr.pair_symbol_map
          ≡ symbol_at a (pairs_of_key chain_enemies chain_pairs k) none
    pub node : s.client.ws_endpoint ≡ item.ws_endpoint

  -- The chains and their managers, in order.
  abbrev pub AreManagers : Dict ChainItem → List (Started P) → Type 0
  AreManagers [] [] = Unit
  AreManagers [] (s ∷ ss) = ⊥
  AreManagers (chain ∷ chains) [] = ⊥
  AreManagers ((k, item) ∷ chains) (s ∷ ss) = IsManager k item s × AreManagers chains ss

  new_node_mgr-IsManager :
      (k : Text) (item : ChainItem) (l : Launch)
      → IsStarted chain_enemies chain_pairs k item l
      → dials dial item.endpoint item.ws_endpoint ≡ true
      → (s : Started P) × (new_node_mgr P dial l ≡ returns s) × IsManager k item s
  new_node_mgr-IsManager k item l started h = (
    record {
      client = record { rpc_url = l.rpc_url; ws_endpoint = l.ws_url; header_ws_list = [] };
      mgr = record {
        router_map = l.routers;
        enemies_map = l.enemies;
        pending_tx_list = [];
        header_ws_list = [];
        signals = [];
        r_decoder = new_router_decoder P.abi l.tokens;
        pair_symbol_map = l.pair_symbols;
      };
    },
    unfold new_node_mgr in
        rw (new_dex_node_client-dials dial l.rpc_url l.ws_url (rw (started.rpc, started.node) h))
          refl,
    record {
      fresh = record { no_headers = refl; no_signals = refl; no_txs = refl };
      routers = started.routers;
      competitors = started.enemies;
      decoder = ap (new_router_decoder P.abi) started.tokens;
      symbols = started.symbols;
      node = started.node;
    },
  )

  new_node_mgr-panics :
      (k : Text) (item : ChainItem) (l : Launch)
      → IsStarted chain_enemies chain_pairs k item l
      → dials dial item.endpoint item.ws_endpoint ≡ false
      → new_node_mgr P dial l ≡ panics nil_deref
  unfolding new_node_mgr
  new_node_mgr-panics k item l started h =
      rw (new_dex_node_client-fails dial l.rpc_url l.ws_url (rw (started.rpc, started.node) h)) refl

  -- One chain of the loop.
  start_all-first :
      (k : Text) (item : ChainItem) (chains : Dict ChainItem) {l : Launch}
      → launch chain_enemies chain_pairs k item ≡ returns l
      → start_all P dial chain_enemies chain_pairs ((k, item) ∷ chains) ≡ (
          new_node_mgr P dial l >>= λ first.
          start_all P dial chain_enemies chain_pairs chains >>= λ others. returns (first ∷ others))
  unfolding start_all
  start_all-first k item chains e = rw e refl

  pub start_all-managers :
      (chains : Dict ChainItem)
      → all_chains chain_enemies chain_pairs chains ≡ true
      → all_dialled dial chains ≡ true
      → (ss : List (Started P)) × (start_all P dial chain_enemies chain_pairs chains ≡ returns ss)
        × AreManagers chains ss
  start_all-managers [] h d = ([], unfold start_all in refl, tt)
  start_all-managers ((k, item) ∷ chains) h d =
      let (l, e, started) = launch-IsStarted chain_enemies chain_pairs k item (ground arith) in
      let (s, e', is_mgr) = new_node_mgr-IsManager k item l started (ground arith) in
      let (ss, e'', are_mgrs) = start_all-managers chains (ground arith) (ground arith) in
      (s ∷ ss, start_all-first k item chains e ∙ rw (e', e'') refl, (is_mgr, are_mgrs))

  start_all-unreachable :
      (chains : Dict ChainItem)
      → all_chains chain_enemies chain_pairs chains ≡ true
      → all_dialled dial chains ≡ false
      → start_all P dial chain_enemies chain_pairs chains ≡ panics nil_deref
  start_all-unreachable [] h d = absurd (ground arith)
  start_all-unreachable ((k, item) ∷ chains) h d =
      let (l, e, started) = launch-IsStarted chain_enemies chain_pairs k item (ground arith) in
      start_all-first k item chains e
      ∙ elim (Bool-cases (dials dial item.endpoint item.ws_endpoint)) [
        | inr unreachable ↦
            ap
              (λ o. o >>= λ first. start_all P dial chain_enemies chain_pairs chains >>= λ others.
                returns (first ∷ others))
              (new_node_mgr-panics k item l started unreachable)
        | inl reachable ↦
            let (s, e', is_mgr) = new_node_mgr-IsManager k item l started reachable in
            rw (e', start_all-unreachable chains (ground arith) (ground arith)) refl
      ]

  -- With an @ in every pair's key: if both endpoints of every chain can be dialled, main starts one
  -- manager for each chain, in order, which has seen nothing and has the chain's tables; if some
  -- endpoint cannot, main panics on a nil client, whatever the other chains are.
  pub start_all_lem :
      (chains : Dict ChainItem)
      → all_chains chain_enemies chain_pairs chains ≡ true
      → ((all_dialled dial chains ≡ true)
          × ((ss : List (Started P)) × (start_all P dial chain_enemies chain_pairs chains
                ≡ returns ss)
              × AreManagers chains ss))
        ⊎ ((all_dialled dial chains ≡ false)
            × (start_all P dial chain_enemies chain_pairs chains ≡ panics nil_deref))
  start_all_lem chains h = elim (Bool-cases (all_dialled dial chains)) [
    | inl d ↦ inl (d, start_all-managers chains h d)
    | inr d ↦ inr (d, start_all-unreachable chains h d)
  ]
