-- ===== src/Program.antt =====
-- The running program: the managers that main.go started, and the handler of core/nats_sub.go that
-- the broker hands the messages to, from the time that main waits in its select. The managers share
-- nothing, and a channel has one loop behind it, so that a send and its receipt are one step.
pub mod Inputs
pub mod Rounds
pub mod Separate
pub mod Contests
pub mod Signals
use dex_executorgo.Prelude.{ℕ, Option, none, some, List, [], ◌∷◌, ◌++◌}
use dex_executorgo.Go.Text.{Text}
use dex_executorgo.Go.Outcome.{Outcome, returns, ◌>>=◌}
use dex_executorgo.Go.Chan.{Chan}
use dex_executorgo.Go.Dict.{Dict, lookup, insert}
use dex_executorgo.Config.{ChainItem}
use dex_executorgo.Start.{Started}
use dex_executorgo.Nats.{Handled, dropped, sends, signal_msg_handler}
use dex_executorgo.Manager.Platform.{Platform}
use dex_executorgo.Manager.Loops.{NodeMgr, Action, Event, received, signal_data, step}

-- What happens next: the broker hands over a message, with its subject, its bytes and the clock's
-- second, or a loop of a chain's manager goes through a round.
pub data Occurrence (P : Platform) : Type 0 where
  arrives : Text → Text → ℕ → Occurrence P
  round : Text → Event P → Occurrence P

-- The managers with their chains: NewNodeMgr gets the channel ReceiveSignalChan[k] of its key.
unfoldable pub by_key : (P : Platform) → Dict ChainItem → List (Started P) → Dict (NodeMgr P)
by_key P [] ss = []
by_key P (chain ∷ chains) [] = []
by_key P ((k, item) ∷ chains) (s ∷ ss) = (k, s.mgr) ∷ by_key P chains ss

-- The actions of a chain's manager, with the chain's key.
unfoldable pub tag : Text → List Action → List (Text × Action)
tag k [] = []
tag k (a ∷ rest) = (k, a) ∷ tag k rest

module _ (P : Platform) where
  -- A round of the manager of k. Its actions are kept with the key.
  unfoldable pub advance :
      Text → Event P → Dict (NodeMgr P) → Dict (NodeMgr P) × List (Text × Action)
  unfolding tag
  advance k e managers = elim (lookup k managers) [
    | none ↦ (managers, [])
    | some mgr ↦ let (mgr', actions) = step P mgr e in (insert k mgr' managers, tag k actions)
  ]

  -- The manager of the channel takes what the handler sends; with nobody there the handler waits.
  abbrev pub on_handled : Handled → ℕ → Dict (NodeMgr P) → Dict (NodeMgr P) × List (Text × Action)
  on_handled dropped second managers = (managers, [])
  on_handled (sends k payload) second managers =
      advance k (received (signal_data payload second)) managers

  module _ (chans : Dict (Chan Text)) where
    -- The handler has no recover: its panic ends the program.
    unfoldable pub occur :
        Occurrence P → Dict (NodeMgr P) → Outcome (Dict (NodeMgr P) × List (Text × Action))
    unfolding advance
    occur (arrives subject payload second) managers =
        signal_msg_handler chans subject payload >>= λ h. returns (on_handled h second managers)
    occur (round k e) managers = returns (advance k e managers)

    unfoldable pub run_all :
        Dict (NodeMgr P) → List (Occurrence P) → Outcome (Dict (NodeMgr P) × List (Text × Action))
    unfolding occur
    run_all managers [] = returns (managers, [])
    run_all managers (o ∷ os) = do
      now ← occur o managers
      later ← run_all now.0 os
      returns (later.0, now.1 ++ later.1)
