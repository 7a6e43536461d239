-- ===== src/Manager/Block/Staleness.antt =====
-- GetPendingBlockNum of core/node_mgr.go: its age check.
use dex_executorgo.Prelude.{ℕ, ◌+◌, ◌≤◌, ◌<◌, ◌≡◌, ap, ◌∙◌, ◌-◌, some, List, arith}
use dex_executorgo.Prelude.Int.{pos, negsuc, ◌+ℤ◌, ◌-ℤ◌}
use dex_executorgo.Go.Outcome.{returns}
use dex_executorgo.Go.Word.{
  two63, to_int64, add_int64, sub_int64, big_int64, to_int64_small, add_int64_exact,
  sub_int64_exact,
}
use dex_executorgo.Types.{Header}
use dex_executorgo.Manager.Block.{last_elem, block_after, get_pending_block_num}

-- The second within a minute, less the seconds since the epoch.
age_negative :
    (second time : ℕ)
    → second < 60
    → 60 ≤ time
    → time < two63
    → sub_int64 (pos second) (to_int64 time) ≡ negsuc (time - second - 1)
unfolding ◌-ℤ◌
age_negative second time s t u =
    ap (sub_int64 (pos second)) (to_int64_small time u)
    ∙ sub_int64_exact (pos second) (pos time) (ground arith) (ground arith)
    ∙ ground arith

next_block : (n : ℕ) → n + 1 < two63 → add_int64 (big_int64 n) (pos 1) ≡ pos (n + 1)
unfolding big_int64 ◌+ℤ◌
next_block n h =
    ap (λ z. add_int64 z (pos 1)) (to_int64_small n (omega arith))
    ∙ add_int64_exact (pos n) (pos 1) (ground arith) (ground arith)
    ∙ ground arith

pub block_after-never_stale :
    (header : Header) (second : ℕ)
    → second < 60
    → 60 ≤ header.time
    → header.time < two63
    → header.number + 1 < two63
    → block_after header second ≡ pos (header.number + 1)
unfolding block_after
block_after-never_stale header second s t u v =
    rw (age_negative second header.time s t u) (ground (arith, next_block header.number v))

-- The clock's second within the minute is less than 60. So for any last header whose time is a
-- minute or more after the epoch, and whose time and next number fit 63 bits, the age is never over
-- two seconds, whatever the present time is: the function returns the next block's number and never
-- the 0 that stands for a stale header.
pub get_pending_block_num-never_stale :
    (headers : List Header) {header : Header} (second : ℕ)
    → last_elem headers ≡ some header
    → second < 60
    → 60 ≤ header.time
    → header.time < two63
    → header.number + 1 < two63
    → get_pending_block_num headers second ≡ returns (pos (header.number + 1))
unfolding get_pending_block_num
get_pending_block_num-never_stale headers {header} second e s t u v =
    rw e (ap returns (block_after-never_stale header second s t u v))
