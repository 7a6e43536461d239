-- ===== src/Manager/Signals.antt =====
-- GetLastSignalBySymbol: the newest signal for a symbol.
pub mod Last
use dex_executorgo.Prelude.{
  ℕ, zero, suc, Option, none, some, List, get_elem?, if◌then◌else◌, length,
}
use dex_executorgo.Go.Text.{Text, text_eq}
use dex_executorgo.Types.{Signal, zero_signal}

-- n.Signals[i], which the loop reads in range only; out of range the result keeps its value.
unfoldable pub read : List Signal → ℕ → Signal → Signal
read signals i signal = elim (get_elem? signals i) [ none ↦ signal | some s ↦ s ]

-- The loop for i down to 0 over a named result: it returns from inside where the symbol fits, and
-- else keeps what it read last.
unfoldable pub last_signal_from : List Signal → Text → ℕ → Signal → Signal
unfolding read
last_signal_from signals symbol zero signal = signal
last_signal_from signals symbol (suc i) signal =
    let s = read signals i signal in
    let rest = last_signal_from signals symbol i s in if text_eq s.symbol symbol then s else rest

unfoldable pub get_last_signal_by_symbol : List Signal → Text → Signal
unfolding last_signal_from
get_last_signal_by_symbol signals symbol =
    last_signal_from signals symbol (length signals) zero_signal
