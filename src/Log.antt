-- ===== src/Log.antt =====
-- utils/logger.go and utils/panic.go: the parameters of the logger, and the text of a stack trace.
pub mod Trace
use dex_executorgo.Prelude.{
  ℕ, zero, suc, ◌+◌, ◌-◌, ◌/◌, ◌%◌, Bool, Option, none, some, List, [], ◌∷◌, ◌++◌, ltb,
  if◌then◌else◌,
}
use dex_executorgo.Prelude.Int.{pos}
use dex_executorgo.Go.Text.{Text, lit}
use dex_executorgo.Go.Strconv.{itoa}

-- What sdk.NewLoggerZapByParam is called with.
pub record LoggerParams : Type 0 where
  pub path : Text
  pub name : Text
  pub level : Text
  pub numbers : ℕ × ℕ × ℕ

-- A text, or another where it is empty.
abbrev or_else : Text → Text → Text
or_else [] other = other
or_else (c ∷ cs) other = c ∷ cs

-- InitLogger; the numbers have no names in the source.
unfoldable pub init_logger : Text → Text → LoggerParams
init_logger path level = record {
  path = or_else path (lit "./logs");
  name = lit "dex_executor.log";
  level = or_else level (lit "info");
  numbers = (256, 100, 7);
}

-- The lower-case hexadecimal digits of n in front of a text; more fuel than n is enough.
hex_onto : ℕ → ℕ → Text → Text
hex_onto zero n acc = acc
hex_onto (suc fuel) n acc =
    let c = if ltb (n % 16) 10 then b'0' + n % 16 else b'a' + (n % 16 - 10) in
    let rest = hex_onto fuel (n / 16) (c ∷ acc) in if ltb n 16 then c ∷ acc else rest

abbrev pub hex : ℕ → Text
unfolding hex_onto
hex n = hex_onto (suc n) n []

-- What runtime.Caller gives for a depth.
pub record Frame : Type 0 where
  pub pc : ℕ
  pub file : Text
  pub line : ℕ

-- "%s:%d (0x%x)\n"
unfoldable pub frame_line : Frame → Text
frame_line f = f.file ++ b':' ∷ (itoa (pos f.line) ++ lit " (0x" ++ hex f.pc ++ b')' ∷ 10 ∷ [])

-- The loop of PanicTrace from the depth i on; `none` stands for more frames than the fuel.
unfoldable pub trace_from : ℕ → (ℕ → Option Frame) → ℕ → Text → Option Text
unfolding frame_line
trace_from zero caller i buf = none
trace_from (suc fuel) caller i buf = elim (caller i) [
  | none ↦ some buf
  | some f ↦ trace_from fuel caller (suc i) (buf ++ frame_line f)
]

-- PanicTrace, with the error as it is printed.
unfoldable pub panic_trace : ℕ → (ℕ → Option Frame) → Text → Option Text
unfolding trace_from
panic_trace fuel caller err = trace_from fuel caller 1 (err ++ 10 ∷ [])
