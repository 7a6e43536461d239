-- ===== src/Wiring/Subject.antt =====
-- main.go and core/nats_sub.go: the subject that main subscribes to, and the channel of a project.
use dex_executorgo.Prelude.{
  ℕ, ◌≡◌, refl, ap, subst, ◌∙◌, Option, none, some, List, [], ◌∷◌, ◌++◌, arith, true, get_elem?,
  All,
}
use mathlib.Core.List.{append-nil}
use dex_executorgo.Go.Text.{Text, lit, split, replace}
use dex_executorgo.Go.Text.Split.{is_free, split_free, split_part, split-All, replace-free_append}
use dex_executorgo.Go.Outcome.{returns, or_panic, index_range, ◌>>=◌}
use dex_executorgo.Go.Chan.{Chan, make}
use dex_executorgo.Go.Dict.{Dict, lookup, insert, lookup-insert}
use dex_executorgo.Nats.{receive_signal_chan, signal_msg_handler, deliver, nats_signal_subject}
use dex_executorgo.Wiring.{chain_name, signal_key}

abbrev root : Text
root = lit "cexdex.hedge.signal."

abbrev chain_hole : Text
chain_hole = lit "{{Chain}}"

abbrev project_hole : Text
project_hole = lit "{{ProjectId}}"

fill_chain :
    (chain : Text)
    → replace nats_signal_subject chain_hole chain none ≡ root ++ chain ++ b'.' ∷ project_hole
unfolding replace
fill_chain chain = refl

fill_project : (k : Text) → replace project_hole project_hole k none ≡ k
unfolding replace
fill_project k = append-nil k

-- A chain's name without an opening brace comes through the second replacement unchanged.
signal_key_lem :
    (chain k : Text) → is_free b'{' chain ≡ true → signal_key chain k ≡ root ++ chain ++ b'.' ∷ k
unfolding signal_key
signal_key_lem chain k h =
    ap (λ t. replace t project_hole k none) (fill_chain chain)
    ∙ replace-free_append b'{' _ k none root _ (unfold is_free in refl)
    ∙ ap (λ t. root ++ t) (replace-free_append b'{' _ k none chain _ h)
    ∙ ap (λ t. root ++ chain ++ t)
        (replace-free_append b'{' _ k none (b'.' ∷ []) _ (unfold is_free in refl)
          ∙ ap (◌∷◌ b'.') (fill_project k))

first_part {ℓ} :
    (P : Text → Type ℓ) (ps : List Text) (p : Text)
    → All P ps
    → or_panic index_range (get_elem? ps 0) ≡ returns p
    → P p
first_part P [] p all e = cc
first_part P (q ∷ ps) p all e = let same : q ≡ p = cc in subst P same all.0

-- The name of a chain holds no byte that the key does not hold.
chain_name-is_free :
    (d : ℕ) (k chain : Text)
    → is_free d k ≡ true
    → chain_name k ≡ returns chain
    → is_free d chain ≡ true
unfolding chain_name
chain_name-is_free d k chain h e =
    first_part (λ p. is_free d p ≡ true) (split b'_' k) chain (split-All b'_' d k h) e

fifth_part :
    (chain k : Text)
    → is_free b'.' chain ≡ true
    → is_free b'.' k ≡ true
    → get_elem? (split b'.' (root ++ chain ++ b'.' ∷ k)) 4 ≡ some k
unfolding split
fifth_part chain k h l =
    ap (λ ps. get_elem? ps 1) (split_part b'.' chain k h)
    ∙ ap (λ ps. get_elem? (chain ∷ ps) 1) (split_free b'.' k l)

-- What a key that the configuration has is opened to.
abbrev opened {ℓ} : {V : Type ℓ} → Option V → Option (Chan Text) → Option (Chan Text)
opened none old = old
opened (some _) old = some (make 0)

module _ {ℓ} {V : Type ℓ} where
  lookup-receive_signal_chan :
      (configured : Dict V) (chans : Dict (Chan Text)) (k : Text)
      → lookup k (receive_signal_chan configured chans)
        ≡ opened (lookup k configured) (lookup k chans)
  unfolding receive_signal_chan lookup
  lookup-receive_signal_chan [] chans k = refl
  lookup-receive_signal_chan ((j, v) ∷ rest) chans k = ground (
    arith,
    lookup-receive_signal_chan rest (insert j (make 0) chans) k,
    lookup-insert j k (make 0) chans,
  )

  deliver-opened :
      (k payload : Text) (o : Option V)
      → returns (deliver k payload (opened o none)) ≡ returns (deliver k payload o)
  deliver-opened k payload none = refl
  deliver-opened k payload (some v) = refl

  -- A message on the subject that main subscribes to for the project k reaches the channel of k
  -- if k is configured, and is dropped if not; the handler never panics on it. The key holds
  -- neither a dot nor an opening brace.
  pub signal_msg_handler-signal_key :
      (configured : Dict V) (k chain payload : Text)
      → is_free b'.' k ≡ true
      → is_free b'{' k ≡ true
      → chain_name k ≡ returns chain
      → signal_msg_handler (receive_signal_chan configured []) (signal_key chain k) payload
        ≡ returns (deliver k payload (lookup k configured))
  unfolding signal_msg_handler lookup
  signal_msg_handler-signal_key configured k chain payload dot brace named =
      ap (λ t. signal_msg_handler chans t payload)
        (signal_key_lem chain k (chain_name-is_free b'{' k chain brace named))
      ∙ ap (λ o. or_panic index_range o >>= λ key. returns (deliver key payload (lookup key chans)))
          (fifth_part chain k (chain_name-is_free b'.' k chain dot named) dot)
      ∙ ap (λ o. returns (deliver k payload o)) (lookup-receive_signal_chan configured [] k)
      ∙ deliver-opened k payload (lookup k configured)
    where
      chans : Dict (Chan Text)
      chans = receive_signal_chan configured []
