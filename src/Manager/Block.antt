-- ===== src/Manager/Block.antt =====
-- GetPendingBlockNum: the number of the block that a pending transaction is expected in.
pub mod Staleness
use dex_executorgo.Prelude.{
  ℕ, ◌+◌, ◌-◌, ◌*◌, Bool, Option, none, some, List, [], ◌∷◌, get_elem?, length, if◌then◌else◌,
}
use dex_executorgo.Prelude.Int.{ℤ, pos, ltb_ℤ}
use dex_executorgo.Go.Outcome.{Outcome, returns, panics, blocks, index_range, or_panic, ◌>>=◌}
use dex_executorgo.Go.Word.{to_int64, add_int64, sub_int64, big_int64}
use dex_executorgo.Types.{Header}

-- l[len(l)-1]; an empty list has no such entry
abbrev pub last_elem {ℓ} : {A : Type ℓ} → List A → Option A
last_elem [] = none
last_elem (x ∷ xs) = get_elem? (x ∷ xs) (length xs)

-- The body behind the reading of the last header. `second` is time.Now().Second(), the second
-- within the minute.
unfoldable pub block_after : Header → ℕ → ℤ
block_after header second =
    if ltb_ℤ (pos 2) (sub_int64 (pos second) (to_int64 header.time))
    then pos 0
    else add_int64 (big_int64 header.number) (pos 1)

unfoldable pub get_pending_block_num : List Header → ℕ → Outcome ℤ
get_pending_block_num headers second = do
  header ← or_panic index_range (last_elem headers)
  returns (block_after header second)
