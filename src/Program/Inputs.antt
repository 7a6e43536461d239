-- ===== src/Program/Inputs.antt =====
-- What happens to the running program, chain by chain.
use dex_executorgo.Prelude.{ℕ, ◌≡◌, true, List, [], ◌∷◌, if◌then◌else◌}
use dex_executorgo.Go.Text.{Text, text_eq}
use dex_executorgo.Go.Text.Split.{is_free}
use dex_executorgo.Wiring.{signal_key}
use dex_executorgo.Wiring.Launches.{chain_of_key}
use dex_executorgo.Manager.Platform.{Platform}
use dex_executorgo.Manager.Loops.{Event, received, signal_data}
use dex_executorgo.Program.{Occurrence, arrives, round}

-- What happens, by chain: a signal on the subject of a chain, or a round of its manager.
pub data Input (P : Platform) : Type 0 where
  signal_for : Text → Text → ℕ → Input P
  round_of : Text → Event P → Input P

module _ (P : Platform) where
  abbrev pub occurrence_of : Input P → Occurrence P
  occurrence_of (signal_for k payload second) =
      arrives (signal_key (chain_of_key k) k) payload second
  occurrence_of (round_of k e) = round k e

  unfoldable pub occurrences : List (Input P) → List (Occurrence P)
  occurrences [] = []
  occurrences (i ∷ is) = occurrence_of i ∷ occurrences is

  abbrev pub key_of : Input P → Text
  key_of (signal_for k payload second) = k
  key_of (round_of k e) = k

  abbrev pub event_of : Input P → Event P
  event_of (signal_for k payload second) = received (signal_data payload second)
  event_of (round_of k e) = e

  -- The key holds neither a dot nor an opening brace.
  abbrev pub IsPlain : Input P → Type 0
  IsPlain i = (is_free b'.' (key_of i) ≡ true) × (is_free b'{' (key_of i) ≡ true)

  -- The rounds of the manager of a chain.
  unfoldable pub events_of : Text → List (Input P) → List (Event P)
  events_of k [] = []
  events_of k (i ∷ is) =
      let rest = events_of k is in if text_eq (key_of i) k then event_of i ∷ rest else rest
