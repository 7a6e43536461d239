-- ===== src/Wiring/Pairs.antt =====
-- main.go: the symbols of pairs.
use dex_executorgo.Prelude.{◌≡◌, ap, ◌∙◌, true, some, [], ◌∷◌, ◌++◌, get_elem?}
use mathlib.Core.List.{map-append}
use dex_executorgo.Go.Text.{Text, lit, split, replace, to_lower}
use dex_executorgo.Go.Text.Split.{
  is_free, split_free, split_part, replace-free_append, replace_from-spent,
}
use dex_executorgo.Go.Outcome.{returns, panics, index_range, or_panic, ◌>>=◌}
use dex_executorgo.Wiring.{pair_symbol}

second_part :
    (dex symbol : Text)
    → is_free b'@' dex ≡ true
    → is_free b'@' symbol ≡ true
    → get_elem? (split b'@' (dex ++ b'@' ∷ symbol)) 1 ≡ some symbol
second_part dex symbol h k =
    ap (λ ps. get_elem? ps 1) (split_part b'@' dex symbol h)
    ∙ ap (λ ps. get_elem? (dex ∷ ps) 1) (split_free b'@' symbol k)

replace_slash : (quote : Text) → replace (b'/' ∷ quote) (lit "/") (lit "_") (some 1) ≡ b'_' ∷ quote
unfolding replace
replace_slash quote = ap (◌∷◌ b'_') (replace_from-spent (lit "/") (lit "_") quote)

-- A key "dex@BASE/QUOTE" gives the symbol "base_quote" in lower case: the first slash becomes an
-- underscore, and all that follows it is kept. The base holds no slash, and no part an @.
pub pair_symbol_lem :
    (dex base quote : Text)
    → is_free b'@' dex ≡ true
    → is_free b'@' (base ++ b'/' ∷ quote) ≡ true
    → is_free b'/' base ≡ true
    → pair_symbol (dex ++ b'@' ∷ (base ++ b'/' ∷ quote))
      ≡ returns (to_lower base ++ b'_' ∷ to_lower quote)
unfolding pair_symbol
pair_symbol_lem dex base quote free_dex free_symbol free_base =
    ap
      (λ o.
        or_panic index_range o >>= λ s. returns (to_lower (replace s (lit "/") (lit "_") (some 1))))
      (second_part dex _ free_dex free_symbol)
    ∙ ap (λ s. returns (to_lower s))
        (replace-free_append b'/' [] (lit "_") (some 1) base (b'/' ∷ quote) free_base
          ∙ ap (λ t. base ++ t) (replace_slash quote))
    ∙ ap returns (unfold to_lower in map-append _ base (b'_' ∷ quote))

-- A key with no @ panics.
pub pair_symbol-panics : (s : Text) → is_free b'@' s ≡ true → pair_symbol s ≡ panics index_range
unfolding pair_symbol
pair_symbol-panics s h = rw (split_free b'@' s h)
