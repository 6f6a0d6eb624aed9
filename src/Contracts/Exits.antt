-- ===== src/Contracts/Exits.antt =====
-- When the validation of the contracts passes.
use Prim.Native.String
use text.Mathlib.TextPositions.{len-append, slice-append_left}
use event_driven_trading_led.Base.{
  String, map, ◌-◌, ℕ, ◌+◌, ◌≤◌, ◌≡◌, ◌↔◌, ◌≢◌, refl, ap, sym, ◌∙◌, length, true, false, List, [],
  ◌∷◌, All, arith, Bool-cases, inl, inr,
}
use event_driven_trading_led.Contracts.{
  Files, Pair, pair_of, discover_pairs, is_failure, count_failures, exit_of, validate_main,
}

-- a pair whose schema is there and finds no error
abbrev pub IsValid : Files → Pair → Type 0
IsValid files p = (files.is_schema p.schema ≡ true) × (files.errors p.schema p.sample ≡ 0)

-- the sample of a name, and its pair
abbrev pub sample_of : String → String
sample_of n = String.◌++◌ n ".sample.json"

abbrev pub schema_of : String → String
schema_of n = String.◌++◌ n ".schema.json"

abbrev named : String → Pair
named n = record { name = n; sample = sample_of n; schema = schema_of n }

pair_of-sample_of : (n : String) → pair_of (sample_of n) ≡ named n
unfolding pair_of
pair_of-sample_of n =
    let size : String.len (sample_of n) - 12 ≡ String.len n =
      omega (arith, len-append n ".sample.json") in
    rw (size, slice-append_left n ".sample.json") refl

discovered : (names : List String) → map pair_of (map sample_of names) ≡ map named names
discovered [] = refl
discovered (n ∷ names) = cc (pair_of-sample_of n, discovered names)

module _ (files : Files) where
  is_failure-IsValid : (p : Pair) → (is_failure files p ≡ false) ↔ IsValid files p
  unfolding is_failure
  is_failure-IsValid p = (λ h. ground arith, λ h. ground arith)

  count_failures-le : (ps : List Pair) (n : ℕ) → n ≤ count_failures files ps n
  unfolding count_failures
  count_failures-le [] n = omega arith
  count_failures-le (p ∷ ps) n = elim (Bool-cases (is_failure files p)) [
    | inl bad ↦ rw bad (omega (arith, count_failures-le ps (n + 1)))
    | inr good ↦ rw good (count_failures-le ps n)
  ]

  count_failures-IsValid :
      (ps : List Pair) → (count_failures files ps 0 ≡ 0) ↔ All (IsValid files) ps
  unfolding count_failures
  count_failures-IsValid [] = (λ h. tt, λ h. refl)
  count_failures-IsValid (p ∷ ps) = elim (Bool-cases (is_failure files p)) [
    | inl bad ↦
        let more : count_failures files (p ∷ ps) 0 ≡ count_failures files ps 1 = rw bad in
        (
          λ h. absurd (omega (arith, h, more, count_failures-le ps 1)),
          λ h. cc (bad, (is_failure-IsValid p).1 h.0),
        )
    | inr good ↦ (
      λ h. ((is_failure-IsValid p).0 good, (count_failures-IsValid ps).0 (ground (arith, h, good))),
      λ h. rw good ((count_failures-IsValid ps).1 h.1),
    )
  ]

  exit_of-IsValid : (ps : List Pair) → (exit_of files ps ≡ 0) ↔ ((ps ≢ []) × All (IsValid files) ps)
  unfolding exit_of
  exit_of-IsValid [] = (λ h. absurd (omega (arith, h)), λ h. absurd (h.0 refl))
  exit_of-IsValid (p ∷ ps) =
      let counted = count_failures-IsValid (p ∷ ps) in
      (
        λ h. (λ same. omega (arith, ap length same), counted.0 (ground (arith, h))),
        λ h. rw (counted.1 h.1) refl,
      )

  validate_main_here :
      files.samples_dir ≡ true → validate_main files ≡ exit_of files (discover_pairs files)
  unfolding validate_main
  validate_main_here here = simp (here)

  validate_main_gone : files.samples_dir ≡ false → validate_main files ≡ 2
  unfolding validate_main
  validate_main_gone gone = simp (gone)

  -- a sample whose schema is there and finds no error
  abbrev pub Holds : String → Type 0
  Holds n = (files.is_schema (schema_of n) ≡ true) × (files.errors (schema_of n) (sample_of n) ≡ 0)

  All-named : (names : List String) → All (IsValid files) (map named names) ↔ All Holds names
  All-named [] = (λ h. tt, λ h. tt)
  All-named (n ∷ names) =
      let rest = All-named names in (λ h. (h.0, rest.0 h.1), λ h. (h.0, rest.1 h.1))

  -- Where the samples are the files named, each with the ending `.sample.json`, the script exits with 0
  -- exactly when their folder is there, there is a sample, and each of them has the schema of its name,
  -- with `.schema.json`, which finds no error in it.
  pub validate_main_passes :
      (names : List String)
      → files.samples ≡ map sample_of names
      → (validate_main files ≡ 0) ↔ ((files.samples_dir ≡ true) × (names ≢ []) × All Holds names)
  unfolding discover_pairs
  validate_main_passes names listed =
      let pairs = exit_of-IsValid (map named names) in
      let valid = All-named names in
      let found : discover_pairs files ≡ map named names = rw listed (discovered names) in
      elim (Bool-cases files.samples_dir) [
        | inl here ↦
            let same : validate_main files ≡ exit_of files (map named names) =
              validate_main_here here ∙ ap (exit_of files) found in
            (
              λ h. (
                here,
                λ none_listed. (pairs.0 (sym same ∙ h)).0 (ap (map named) none_listed),
                valid.0 (pairs.0 (sym same ∙ h)).1,
              ),
              λ h. same ∙ pairs.1 (λ same_nil. h.1 (names_nil names same_nil), valid.1 h.2),
            )
        | inr gone ↦ (λ h. absurd (omega (arith, h, validate_main_gone gone)), λ h. cc (gone, h.0))
      ]
    where
      names_nil : (ns : List String) → map named ns ≡ [] → ns ≡ []
      names_nil [] h = refl
      names_nil (n ∷ ns) h = cc
