-- ===== src/Config/Pairs.antt =====
-- LoadPairsConfig of config/config.go: which pairs a chain has once the directory is loaded.
use dex_executorgo.Prelude.{
  ◌≡◌, refl, ap, sym, ◌∙◌, ◌⊎◌, inl, inr, Bool, true, false, ◌&&◌, ◌||◌, Option, none, some, List,
  [], ◌∷◌, get_elem?, if◌then◌else◌, arith, Bool-cases, Option-cases,
}
use dex_executorgo.Go.Text.{Text, text_eq, split}
use dex_executorgo.Go.Text.Split.{is_free, split_free, split_held}
use dex_executorgo.Go.Outcome.{Outcome, returns, panics, explicit, ◌>>=◌}
use dex_executorgo.Go.Dict.{Dict, lookup, insert, lookup-insert}
use dex_executorgo.Config.{Pair, FileInfo, load_file, load_files, load_pairs_config}

abbrev first_of : List Text → Text
first_of [] = []
first_of (p ∷ ps) = p

-- The chain of a file: its name up to the first dot.
abbrev pub chain_of : FileInfo → Text
chain_of fi = first_of (split b'.' fi.name)

named : (name : Text) → get_elem? (split b'.' name) 0 ≡ some (first_of (split b'.' name))
named name = elim (Bool-cases (is_free b'.' name)) [
  | inl e ↦ rw (split_free b'.' name e) refl
  | inr e ↦ let (p, q, ps, at) = split_held b'.' name e in rw at refl
]

module _ (unmarshal : Text → Option (Dict Pair)) where
  -- The pairs in a file, if it can be read and decoded.
  abbrev pub decoded : Option Text → Option (Dict Pair)
  decoded none = none
  decoded (some content) = unmarshal content

  abbrev pub is_some {ℓ} : {A : Type ℓ} → Option A → Bool
  is_some none = false
  is_some (some a) = true

  -- Every file can be read and decoded.
  abbrev pub all_decoded : List FileInfo → Bool
  all_decoded [] = true
  all_decoded (fi ∷ rest) = (fi.is_dir || is_some (decoded fi.content)) && all_decoded rest

  -- What an entry of the directory makes of the pairs of a chain.
  abbrev pub updated : Text → FileInfo → Option (Dict Pair) → Option (Dict Pair)
  updated chain fi old =
      if fi.is_dir then old else if text_eq (chain_of fi) chain then decoded fi.content else old

  -- The pairs in the last file of a chain.
  abbrev pub pairs_of : Text → List FileInfo → Option (Dict Pair) → Option (Dict Pair)
  pairs_of chain [] old = old
  pairs_of chain (fi ∷ rest) old = pairs_of chain rest (updated chain fi old)

  load_file-decoded :
      (fi : FileInfo) (table : Dict (Dict Pair)) {pairs : Dict Pair}
      → fi.is_dir ≡ false
      → decoded fi.content ≡ some pairs
      → load_file unmarshal fi table ≡ returns (insert (chain_of fi) pairs table)
  unfolding load_file
  load_file-decoded fi table plain e = elim (Option-cases fi.content) [
    | inl f ↦ cc
    | inr (content, f) ↦
        let read : unmarshal content ≡ some _ = ap decoded (sym f) ∙ e in
        rw (plain, f, read, named fi.name) refl
  ]

  load_file-dir :
      (fi : FileInfo) (table : Dict (Dict Pair))
      → fi.is_dir ≡ true
      → load_file unmarshal fi table ≡ returns table
  unfolding load_file
  load_file-dir fi table h = rw h refl

  load_file-panics :
      (fi : FileInfo) (table : Dict (Dict Pair))
      → fi.is_dir ≡ false
      → decoded fi.content ≡ none
      → load_file unmarshal fi table ≡ panics explicit
  unfolding load_file
  load_file-panics fi table plain e = elim (Option-cases fi.content) [
    | inl f ↦ rw (plain, f) refl
    | inr (content, f) ↦
        let read : unmarshal content ≡ none = ap decoded (sym f) ∙ e in rw (plain, f, read) refl
  ]

  -- A table with the pairs of each chain.
  abbrev pub Loaded : Outcome (Dict (Dict Pair)) → (Text → Option (Dict Pair)) → Type 0
  Loaded o pairs =
      (table : Dict (Dict Pair)) × (o ≡ returns table)
      × ((chain : Text) → lookup chain table ≡ pairs chain)

  cons-Loaded :
      (fi : FileInfo) (rest : List FileInfo) (table more : Dict (Dict Pair))
      → load_file unmarshal fi table ≡ returns more
      → ((chain : Text) → lookup chain more ≡ updated chain fi (lookup chain table))
      → Loaded (load_files unmarshal rest more) (λ chain. pairs_of chain rest (lookup chain more))
      → Loaded
          (load_files unmarshal (fi ∷ rest) table)
          (λ chain. pairs_of chain (fi ∷ rest) (lookup chain table))
  unfolding load_files
  cons-Loaded fi rest table more e agree (last, loaded, at) = (
    last,
    ap (λ o. o >>= load_files unmarshal rest) e ∙ loaded,
    λ chain. at chain ∙ ap (pairs_of chain rest) (agree chain),
  )

  insert-updated :
      (fi : FileInfo) (table : Dict (Dict Pair)) (chain : Text) {pairs : Dict Pair}
      → fi.is_dir ≡ false
      → decoded fi.content ≡ some pairs
      → lookup chain (insert (chain_of fi) pairs table) ≡ updated chain fi (lookup chain table)
  insert-updated fi table chain {pairs} plain e =
      lookup-insert (chain_of fi) chain pairs table ∙ rw (plain, e) refl

  load_files-Loaded :
      (entries : List FileInfo) (table : Dict (Dict Pair))
      → all_decoded entries ≡ true
      → Loaded
          (load_files unmarshal entries table)
          (λ chain. pairs_of chain entries (lookup chain table))
  load_files-Loaded [] table h = (table, unfold load_files in refl, λ chain. refl)
  load_files-Loaded (fi ∷ rest) table h = elim (Bool-cases fi.is_dir) [
    | inl dir ↦
        cons-Loaded fi rest table table (load_file-dir fi table dir) (λ chain. rw dir refl)
          (load_files-Loaded rest table (ground arith))
    | inr plain ↦ elim (Option-cases (decoded fi.content)) [
      | inl e ↦ absurd (ground arith)
      | inr (pairs, e) ↦
          cons-Loaded fi rest table (insert (chain_of fi) pairs table)
            (load_file-decoded fi table plain e) (λ chain. insert-updated fi table chain plain e)
            (load_files-Loaded rest (insert (chain_of fi) pairs table) (ground arith))
    ]
  ]

  load_files-panics :
      (entries : List FileInfo) (table : Dict (Dict Pair))
      → all_decoded entries ≡ false
      → load_files unmarshal entries table ≡ panics explicit
  unfolding load_files
  load_files-panics [] table h = absurd (ground arith)
  load_files-panics (fi ∷ rest) table h = elim (Bool-cases fi.is_dir) [
    | inl dir ↦
        ap (λ o. o >>= load_files unmarshal rest) (load_file-dir fi table dir)
        ∙ load_files-panics rest table (ground arith)
    | inr plain ↦ elim (Option-cases (decoded fi.content)) [
      | inl e ↦ ap (λ o. o >>= load_files unmarshal rest) (load_file-panics fi table plain e)
      | inr (pairs, e) ↦
          ap (λ o. o >>= load_files unmarshal rest) (load_file-decoded fi table plain e)
          ∙ load_files-panics rest (insert (chain_of fi) pairs table) (ground arith)
    ]
  ]

  -- If every file of the directory can be read and decoded, the configuration is loaded, and each
  -- chain has the pairs in the last file of its name up to the first dot; if some file cannot,
  -- loading panics.
  pub load_pairs_config_lem :
      (entries : List FileInfo)
      → ((all_decoded entries ≡ true)
          × Loaded
              (load_pairs_config unmarshal (some entries))
              (λ chain. pairs_of chain entries none))
        ⊎ ((all_decoded entries ≡ false)
            × (load_pairs_config unmarshal (some entries) ≡ panics explicit))
  unfolding load_pairs_config lookup
  load_pairs_config_lem entries = elim (Bool-cases (all_decoded entries)) [
    | inl h ↦ inl (h, load_files-Loaded entries [] h)
    | inr h ↦ inr (h, load_files-panics entries [] h)
  ]
