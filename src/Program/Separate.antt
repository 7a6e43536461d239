-- ===== src/Program/Separate.antt =====
-- The running program as independent managers, one for each chain.
use dex_executorgo.Prelude.{
  ℕ, ◌≡◌, refl, ap, ◌∙◌, inl, inr, none, some, List, [], ◌∷◌, ◌++◌, Option-cases, Bool-cases, sym,
  All,
}
use dex_executorgo.Go.Text.{Text, text_eq}
use dex_executorgo.Go.Text.Equality.{text_eq_iff}
use dex_executorgo.Go.Outcome.{returns, ◌>>=◌}
use dex_executorgo.Go.Dict.{Dict, lookup}
use dex_executorgo.Nats.{receive_signal_chan, deliver}
use dex_executorgo.Wiring.Launches.{chain_of_key, chain_name_lem}
use dex_executorgo.Wiring.Subject.{signal_msg_handler-signal_key}
use dex_executorgo.Manager.Platform.{Platform}
use dex_executorgo.Manager.Loops.{NodeMgr, Action, Event, received, signal_data, run}
use dex_executorgo.Program.{advance, on_handled, occur, run_all}
use dex_executorgo.Program.Inputs.{
  Input, signal_for, round_of, occurrence_of, occurrences, key_of, event_of, IsPlain, events_of,
}
use dex_executorgo.Program.Rounds.{
  actions_of, actions_of-append, advance-none, advance-here, advance-elsewhere,
}

module _ (P : Platform) where
  -- Every manager's chain is configured.
  abbrev pub AreConfigured {ℓ} : {V : Type ℓ} → Dict V → Dict (NodeMgr P) → Type ℓ
  AreConfigured configured managers =
      (k : Text) → lookup k configured ≡ none → lookup k managers ≡ none

  module _ {ℓ} {V : Type ℓ} (configured : Dict V) where
    advance-AreConfigured :
        (k : Text) (e : Event P) (managers : Dict (NodeMgr P))
        → AreConfigured configured managers
        → AreConfigured configured (advance P k e managers).0
    advance-AreConfigured k e managers known j absent = elim (Bool-cases (text_eq k j)) [
      | inl same ↦
          let at : lookup k managers ≡ none =
            ap (λ t. lookup t managers) ((text_eq_iff k j).0 same) ∙ known j absent in
          ap (λ m. lookup j m.0) (advance-none P k e managers at) ∙ known j absent
      | inr other ↦ (advance-elsewhere P j k e managers other).0 ∙ known j absent
    ]

    on_handled-deliver :
        (k payload : Text) (second : ℕ) (managers : Dict (NodeMgr P))
        → AreConfigured configured managers
        → on_handled P (deliver k payload (lookup k configured)) second managers
          ≡ advance P k (received (signal_data payload second)) managers
    on_handled-deliver k payload second managers known = elim (Option-cases (lookup k configured)) [
      | inl h ↦
          rw h (sym (advance-none P k (received (signal_data payload second)) managers (known k h)))
      | inr (v, h) ↦ rw h refl
    ]

    -- An input is a round of the manager of its chain.
    occur-input :
        (i : Input P) (managers : Dict (NodeMgr P))
        → AreConfigured configured managers
        → IsPlain P i
        → occur P (receive_signal_chan configured []) (occurrence_of P i) managers
          ≡ returns (advance P (key_of P i) (event_of P i) managers)
    unfolding occur
    occur-input (signal_for k payload second) managers known plain =
        ap (λ o. o >>= λ h. returns (on_handled P h second managers))
          (signal_msg_handler-signal_key configured k (chain_of_key k) payload plain.0 plain.1
            (chain_name_lem k))
        ∙ ap returns (on_handled-deliver k payload second managers known)
    occur-input (round_of k e) managers known plain = refl

    -- What the program does on inputs.
    on_inputs : Dict (NodeMgr P) → List (Input P) → Dict (NodeMgr P) × List (Text × Action)
    on_inputs managers [] = (managers, [])
    on_inputs managers (i ∷ is) =
        let now = advance P (key_of P i) (event_of P i) managers in
        let later = on_inputs now.0 is in (later.0, now.1 ++ later.1)

    run_all-on_inputs :
        (managers : Dict (NodeMgr P)) (is : List (Input P))
        → AreConfigured configured managers
        → All (IsPlain P) is
        → run_all P (receive_signal_chan configured []) managers (occurrences P is)
          ≡ returns (on_inputs managers is)
    unfolding run_all on_inputs occurrences
    run_all-on_inputs managers [] known plain = refl
    run_all-on_inputs managers (i ∷ is) known plain =
        rw
          (
            occur-input i managers known plain.0,
            run_all-on_inputs (advance P (key_of P i) (event_of P i) managers).0 is
                (advance-AreConfigured (key_of P i) (event_of P i) managers known) plain.1,
          )
          refl

    on_inputs-Separate :
        (j : Text) (managers : Dict (NodeMgr P)) (is : List (Input P)) {mgr : NodeMgr P}
        → lookup j managers ≡ some mgr
        → (lookup j (on_inputs managers is).0 ≡ some (run P mgr (events_of P j is)).0)
          × (actions_of P j (on_inputs managers is).1 ≡ (run P mgr (events_of P j is)).1)
    unfolding on_inputs events_of run
    on_inputs-Separate j managers [] h = (h, unfold actions_of in refl)
    on_inputs-Separate j managers (i ∷ is) {mgr} h = elim (Bool-cases (text_eq (key_of P i) j)) [
      | inl same ↦
          let now = advance-here P j (key_of P i) (event_of P i) managers h same in
          let later =
            on_inputs-Separate j (advance P (key_of P i) (event_of P i) managers).0 is now.0 in
          rw same (
            later.0,
            (actions_of-append P j (advance P (key_of P i) (event_of P i) managers).1 _
                ∙ rw (now.1, later.1) refl),
          )
      | inr other ↦
          let now = advance-elsewhere P j (key_of P i) (event_of P i) managers other in
          let later =
            on_inputs-Separate j (advance P (key_of P i) (event_of P i) managers).0 is
              (now.0 ∙ h) in
          rw other (
            later.0,
            (actions_of-append P j (advance P (key_of P i) (event_of P i) managers).1 _
                ∙ rw (now.1, later.1) refl),
          )
    ]

    -- The program's managers run apart. Whatever the broker delivers on the chains' subjects and
    -- whatever rounds the loops go through, the program goes on, and the manager of a chain ends, and
    -- has acted, as it does alone on its own signals and rounds. Every manager's chain is
    -- configured, and no key holds a dot or an opening brace.
    pub run_all-separates :
        (j : Text) (managers : Dict (NodeMgr P)) (is : List (Input P)) {mgr : NodeMgr P}
        → AreConfigured configured managers
        → All (IsPlain P) is
        → lookup j managers ≡ some mgr
        → (last : Dict (NodeMgr P) × List (Text × Action)) × (run_all P
              (receive_signal_chan configured [])
              managers
              (occurrences P is)
            ≡ returns last)
          × (lookup j last.0 ≡ some (run P mgr (events_of P j is)).0)
          × (actions_of P j last.1 ≡ (run P mgr (events_of P j is)).1)
    run_all-separates j managers is known plain h = (
      on_inputs managers is,
      run_all-on_inputs managers is known plain,
      (on_inputs-Separate j managers is h).0,
      (on_inputs-Separate j managers is h).1,
    )
