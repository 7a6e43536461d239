-- ===== src/Program/Signals.antt =====
-- main.go from its start on: what the manager of a chain has kept.
use dex_executorgo.Prelude.{
  ap, ◌∙◌, ap₂, ◌≡◌, refl, true, some, List, [], ◌∷◌, arith, All, Bool-cases, inl, inr, subst,
  Option,
}
use mathlib.Core.List.{filter_map}
use dex_executorgo.Go.Text.{Text, text_eq}
use dex_executorgo.Go.Text.Equality.{text_eq_iff}
use dex_executorgo.Go.Outcome.{returns}
use dex_executorgo.Go.Dict.{Dict, lookup}
use dex_executorgo.Config.{Pair, ChainItem}
use dex_executorgo.Nats.{receive_signal_chan}
use dex_executorgo.Wiring.{at_key}
use dex_executorgo.Wiring.Launches.{all_chains, chain_of_key}
use dex_executorgo.Start.{Started, start_all}
use dex_executorgo.Start.Chains.{all_dialled, IsManager, AreManagers, start_all-managers}
use dex_executorgo.Manager.Platform.{Platform}
use dex_executorgo.Manager.Loops.{NodeMgr, Action, run}
use dex_executorgo.Manager.Loops.History.{
  newest, accepted_head, accepted_signal, accepted_tx, run-newest,
}
use dex_executorgo.Program.Contests.{contest_tx, accepted_tx_lem}
use dex_executorgo.Program.{by_key, run_all}
use dex_executorgo.Program.Inputs.{Input, IsPlain, occurrences, events_of}
use dex_executorgo.Program.Separate.{AreConfigured, run_all-separates}

module _ (P : Platform) (dial : Text → Option Text) (chain_enemies : Dict (List Text))
    (chain_pairs : Dict (Dict Pair)) where
  by_key-AreConfigured :
      (chains : Dict ChainItem) (ss : List (Started P))
      → AreConfigured P chains (by_key P chains ss)
  unfolding by_key lookup
  by_key-AreConfigured [] ss k h = refl
  by_key-AreConfigured (chain ∷ chains) [] k h = refl
  by_key-AreConfigured ((j, item) ∷ chains) (s ∷ ss) k h =
      ground (arith, by_key-AreConfigured chains ss k)

  lookup-by_key :
      (k : Text) (chains : Dict ChainItem) (ss : List (Started P)) {item : ChainItem}
      → AreManagers P dial chain_enemies chain_pairs chains ss
      → lookup k chains ≡ some item
      → (s : Started P) × (lookup k (by_key P chains ss) ≡ some s.mgr)
        × IsManager P dial chain_enemies chain_pairs k item s
  unfolding by_key lookup
  lookup-by_key k [] ss are h = cc
  lookup-by_key k (chain ∷ chains) [] are h = absurd are
  lookup-by_key k ((j, item) ∷ chains) (s ∷ ss) {item = wanted} are h =
      elim (Bool-cases (text_eq j k)) [
        | inl same ↦
            let at : item ≡ wanted = ground arith in
            (
              s,
              rw same refl,
              subst (λ i. IsManager P dial chain_enemies chain_pairs k i s) at
                  (subst (λ key. IsManager P dial chain_enemies chain_pairs key item s)
                    ((text_eq_iff j k).0 same) are.0),
            )
        | inr other ↦
            let (s', at, is_mgr) = lookup-by_key k chains ss are.1 (ground arith) in
            (s', rw other at, is_mgr)
      ]

  -- Once main has started: a manager for each chain, and what the manager of a chain has kept.
  pub record Keeps (k : Text) (item : ChainItem) (chains : Dict ChainItem) (is : List (Input P))
      : Type 0 where
    pub ss : List (Started P)
    pub started : start_all P dial chain_enemies chain_pairs chains ≡ returns ss
    pub last : Dict (NodeMgr P) × List (Text × Action)
    pub goes_on :
        run_all P (receive_signal_chan chains []) (by_key P chains ss) (occurrences P is)
        ≡ returns last
    pub mgr : NodeMgr P
    pub found : lookup k last.0 ≡ some mgr
    pub signals : mgr.signals ≡ newest P (filter_map (accepted_signal P) (events_of P k is))
    pub heads : mgr.header_ws_list ≡ newest P (filter_map (accepted_head P) (events_of P k is))
    pub txs :
        mgr.pending_tx_list
        ≡ newest P (
            filter_map
              (contest_tx P item.router (at_key (lookup (chain_of_key k) chain_enemies)))
              (events_of P k is))

  -- If the endpoints can be dialled and every pair's key has an @, main starts its managers, and
  -- whatever the broker delivers on the chains' subjects and whatever rounds follow, the program
  -- goes on, and the manager of a configured chain has kept the newest signals of its own subject
  -- and the newest headers of its own node, and of the transactions of its own node the newest that
  -- go to a configured competitor of the chain, in whatever letter case that is configured, and to no
  -- router that is configured with exactly the transaction's address; none of another chain. No key holds a dot or an
  -- opening brace.
  pub started-Keeps :
      (k : Text) {item : ChainItem} (chains : Dict ChainItem) (is : List (Input P))
      → all_chains chain_enemies chain_pairs chains ≡ true
      → all_dialled dial chains ≡ true
      → lookup k chains ≡ some item
      → All (IsPlain P) is
      → Keeps k item chains is
  started-Keeps k {item} chains is keys dialled configured plain =
      let (ss, started, are) =
        start_all-managers P dial chain_enemies chain_pairs chains keys dialled in
      let (s, at, is_mgr) = lookup-by_key k chains ss are configured in
      let (last, goes_on, found, acts) =
        run_all-separates P chains k (by_key P chains ss) is (by_key-AreConfigured chains ss) plain
          at in
      let (heads, signals, txs) = run-newest P s.mgr (events_of P k is) is_mgr.fresh in
      record {
        ss = ss;
        started = started;
        last = last;
        goes_on = goes_on;
        mgr = (run P s.mgr (events_of P k is)).0;
        found = found;
        signals = signals;
        heads = heads;
        txs =
            txs
            ∙ ap₂
                (λ routers enemies.
                  newest P (filter_map (accepted_tx P routers enemies) (events_of P k is)))
                is_mgr.routers is_mgr.competitors
            ∙ ap (λ f. newest P (filter_map f (events_of P k is)))
                (accepted_tx_lem P item.router (at_key (lookup (chain_of_key k) chain_enemies)));
      }
