-- ===== src/Nats.antt =====
-- core/nats_sub.go and the subjects of core/consts.go: one channel for each configured chain, and
-- the handler that sends a signal to the channel that its subject names.
use dex_executorgo.Prelude.{Option, none, some, [], ◌∷◌, get_elem?}
use dex_executorgo.Go.Text.{Text, lit, split}
use dex_executorgo.Go.Outcome.{Outcome, index_range, returns, or_panic, ◌>>=◌}
use dex_executorgo.Go.Chan.{Chan, make}
use dex_executorgo.Go.Dict.{Dict, lookup, insert}

-- DATA_ORDER_TOOL
abbrev pub data_order_tool : Text
data_order_tool = lit "ter.{{Exchange}}.{{AccountId}}.{{ProjectId}}"

-- NATS_SIGNAL_SUBJECT
abbrev pub nats_signal_subject : Text
nats_signal_subject = lit "cexdex.hedge.signal.{{Chain}}.{{ProjectId}}"

-- The init of the package: ReceiveSignalChan has an unbuffered channel for each key.
unfoldable pub receive_signal_chan {ℓ} : {V : Type ℓ} → Dict V → Dict (Chan Text) → Dict (Chan Text)
receive_signal_chan [] chans = chans
receive_signal_chan ((k, _) ∷ rest) chans = receive_signal_chan rest (insert k (make 0) chans)

-- What SignalMsgHandler does with a message: it drops it, or sends it on the channel of a key and
-- returns once the receiver took it.
pub data Handled : Type 0 where
  dropped : Handled
  sends : Text → Text → Handled

abbrev pub deliver {ℓ} : {V : Type ℓ} → Text → Text → Option V → Handled
deliver key payload none = dropped
deliver key payload (some chan) = sends key payload

-- SignalMsgHandler. The subject's fifth part is the key; a shorter subject panics.
unfoldable pub signal_msg_handler : Dict (Chan Text) → Text → Text → Outcome Handled
signal_msg_handler chans subject payload = do
  key ← or_panic index_range (get_elem? (split b'.' subject) 4)
  returns (deliver key payload (lookup key chans))
