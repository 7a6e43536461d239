-- ===== src/Program/Contests.antt =====
-- The transactions that a manager of main.go keeps, told by the configuration of its chain.
use dex_executorgo.Prelude.{
  ◌≡◌, refl, Option, none, some, List, [], inl, inr, Bool-cases, if◌then◌else◌,
}
use mathlib.Core.Path.{fun_ext}
use dex_executorgo.Go.Text.{Text}
use dex_executorgo.Go.Dict.{Dict, lookup}
use dex_executorgo.Types.{PendingTx}
use dex_executorgo.Wiring.{new_router, enemies_map}
use dex_executorgo.Wiring.Tables.{is_enemy, has_address, new_router-has_address, lookup-enemies_map}
use dex_executorgo.Manager.Platform.{Platform, pending_of}
use dex_executorgo.Manager.Loops.{
  Event, head, head_ctx_done, received, ctx_done, pending, signal_data, flag_at,
}
use dex_executorgo.Manager.Loops.History.{enemy_tx, accepted_tx}

flag_at-enemies_map :
    (to : Text) (enemies : List Text) → flag_at to (enemies_map enemies []) ≡ is_enemy to enemies
unfolding lookup
flag_at-enemies_map to enemies = elim (Bool-cases (is_enemy to enemies)) [
  | inl e ↦ rw (lookup-enemies_map enemies [] to, flag_at) (rw e refl)
  | inr e ↦ rw (lookup-enemies_map enemies [] to, flag_at) (rw e refl)
]

module _ (P : Platform) (routers : Dict Text) (enemies : List Text) where
  -- A transaction to a configured competitor, letter case aside, and to no router that is
  -- configured with the very address of the transaction.
  abbrev pub contest_of : P.Transaction → Option PendingTx → Option P.Transaction
  contest_of tx none = none
  contest_of tx (some p) =
      if has_address p.to routers then none else if is_enemy p.to enemies then some tx else none

  abbrev pub contest_tx : Event P → Option P.Transaction
  contest_tx (received (pending tx client order clock)) = contest_of tx (pending_of P tx)
  contest_tx (received ctx_done) = none
  contest_tx (received (signal_data text second)) = none
  contest_tx (head h) = none
  contest_tx head_ctx_done = none

  enemy_tx-contest_of :
      (tx : P.Transaction) (o : Option PendingTx)
      → enemy_tx P (new_router routers []) (enemies_map enemies []) tx o ≡ contest_of tx o
  enemy_tx-contest_of tx none = refl
  enemy_tx-contest_of tx (some p) = elim (new_router-has_address routers p.to) [
    | inl (e, (name, found)) ↦ rw (found, enemy_tx) (rw e refl)
    | inr (e, missing) ↦ rw (missing, enemy_tx) (rw (e, flag_at-enemies_map p.to enemies) refl)
  ]

  accepted_tx-contest_tx :
      (e : Event P)
      → accepted_tx P (new_router routers []) (enemies_map enemies []) e ≡ contest_tx e
  accepted_tx-contest_tx (received (pending tx client order clock)) =
      enemy_tx-contest_of tx (pending_of P tx)
  accepted_tx-contest_tx (received ctx_done) = refl
  accepted_tx-contest_tx (received (signal_data text second)) = refl
  accepted_tx-contest_tx (head h) = refl
  accepted_tx-contest_tx head_ctx_done = refl

  -- The manager's tables accept the contests of the configuration.
  pub accepted_tx_lem : accepted_tx P (new_router routers []) (enemies_map enemies []) ≡ contest_tx
  accepted_tx_lem = fun_ext accepted_tx-contest_tx
