-- ===== src/Go/Chan.antt =====
-- Buffered Go channels as values. A channel operation ends at once, blocks or panics.
use dex_executorgo.Prelude.{
  ℕ, Bool, true, false, Option, none, some, List, [], ◌∷◌, ◌++◌, ltb, if◌then◌else◌, length,
}
use dex_executorgo.Go.Outcome.{Outcome, returns, panics, blocks, send_closed, close_closed}

pub record Chan {ℓ} (A : Type ℓ) : Type ℓ where
  pub queue : List A
  pub capacity : ℕ
  pub closed : Bool

module _ {ℓ} {A : Type ℓ} where
  -- make(chan T, n)
  unfoldable pub make : ℕ → Chan A
  make n = record { queue = []; capacity = n; closed = false }

  -- ch <- v with no receiver waiting
  unfoldable pub send : A → Chan A → Outcome (Chan A)
  send v ch =
      if ch.closed
      then panics send_closed
      else if ltb (length ch.queue) ch.capacity
      then returns (record ch { queue = ch.queue ++ v ∷ [] })
      else blocks

  -- close(ch)
  unfoldable pub close : Chan A → Outcome (Chan A)
  close ch = if ch.closed then panics close_closed else returns (record ch { closed = true })

  -- v, ok := <-ch: the oldest value, or nothing from a closed channel that is empty
  unfoldable pub receive : Chan A → Outcome (Option A × Chan A)
  receive ch = elim ch.queue [
    | v ∷ rest ↦ returns (some v, record ch { queue = rest })
    | [] ↦ if ch.closed then returns (none, ch) else blocks
  ]
