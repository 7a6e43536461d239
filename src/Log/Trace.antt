-- ===== src/Log/Trace.antt =====
-- PanicTrace of utils/panic.go: the lines that it writes.
use dex_executorgo.Prelude.{
  ℕ, zero, suc, ◌<◌, ◌≡◌, refl, ap, ◌∙◌, Option, none, some, List, [], ◌∷◌, ◌++◌, length, arith,
}
use mathlib.Core.List.{append_assoc, append-nil}
use dex_executorgo.Go.Text.{Text}
use dex_executorgo.Log.{Frame, frame_line, trace_from, panic_trace}

-- From the depth i on the stack has these frames, and no more.
abbrev pub Stack : (ℕ → Option Frame) → ℕ → List Frame → Type 0
Stack caller i [] = caller i ≡ none
Stack caller i (f ∷ fs) = (caller i ≡ some f) × Stack caller (suc i) fs

abbrev pub lines : List Frame → Text
lines [] = []
lines (f ∷ fs) = frame_line f ++ lines fs

trace_from_lem :
    (fuel : ℕ) (caller : ℕ → Option Frame) (i : ℕ) (fs : List Frame) (buf : Text)
    → Stack caller i fs
    → length fs < fuel
    → trace_from fuel caller i buf ≡ some (buf ++ lines fs)
unfolding trace_from
trace_from_lem zero caller i fs buf h k = absurd (omega arith)
trace_from_lem (suc fuel) caller i [] buf h k = rw (h, trace_from) (ap some (rw append-nil refl))
trace_from_lem (suc fuel) caller i (f ∷ fs) buf h k =
    rw (h.0, trace_from)
      (trace_from_lem fuel caller (suc i) fs (buf ++ frame_line f) h.1 (omega arith)
        ∙ ap some (append_assoc buf (frame_line f) (lines fs)))

-- On a stack of finitely many frames behind PanicTrace's own the loop ends, and the text is the
-- error's line and a line for each frame, innermost first.
pub panic_trace_lem :
    (fuel : ℕ) (caller : ℕ → Option Frame) (fs : List Frame) (err : Text)
    → Stack caller 1 fs
    → length fs < fuel
    → panic_trace fuel caller err ≡ some ((err ++ 10 ∷ []) ++ lines fs)
unfolding panic_trace
panic_trace_lem fuel caller fs err h k = trace_from_lem fuel caller 1 fs (err ++ 10 ∷ []) h k
