-- ===== src/Tools/Diag/Truthful.antt =====
-- tools/pkg/fccutils/diag.go: whether what is reported of a refused call is true.
use darkstop.Base.{
  ℕ, ◌≡◌, refl, inl, inr, ◌⊎◌, true, false, Option, none, some, List, [], ◌∷◌, ltb, ◌==◌,
  if◌then◌else◌, length, Bool-cases, Option-cases, arith,
}
use darkstop.Policy.{String, eq_string}
use darkstop.Tools.{RpcError, refuses}
use darkstop.Tools.Diag.{
  Errors, Report, succeeded, no_revert_data, too_short, reason, custom, unknown,
  extract_revert_data, selector_of, error_selector, find_error, find_in, find_custom,
  unpacked_reason, report_data, report_revert, diag_availability_check_revert,
  replay_add_tee_version,
}

-- The contract has an error with the selector and the name.
abbrev Declares : List ℕ → String → List (List ℕ × String) → Type 0
Declares selector name [] = ⊥
Declares selector name ((id, n) ∷ errors) =
    ((eq_string id selector ≡ true) × (n ≡ name)) ⊎ Declares selector name errors

abbrev DeclaresIn : List ℕ → String → Errors → Type 0
DeclaresIn selector name none = ⊥
DeclaresIn selector name (some errors) = Declares selector name errors

abbrev pub HasError : List ℕ → String → String → List (String × Errors) → Type 0
HasError selector contract name [] = ⊥
HasError selector contract name ((c, errors) ∷ contracts) =
    ((c ≡ contract) × DeclaresIn selector name errors) ⊎ HasError selector contract name contracts

-- The report names a custom error only if the contract has it, and calls a selector unknown only if no
-- contract has an error with it.
abbrev pub IsTruthful : List ℕ → List (String × Errors) → Report → Type 0
IsTruthful selector contracts (custom contract name) = HasError selector contract name contracts
IsTruthful selector contracts (unknown found) =
    (found ≡ selector) × ((contract name : String) → HasError selector contract name contracts → ⊥)
IsTruthful selector contracts succeeded = Unit
IsTruthful selector contracts no_revert_data = Unit
IsTruthful selector contracts too_short = Unit
IsTruthful selector contracts (reason text) = Unit

found_lem :
    (selector : List ℕ) (errors : List (List ℕ × String)) (name : String)
    → find_error selector errors ≡ some name
    → Declares selector name errors
unfolding find_error
found_lem selector [] name h = cc
found_lem selector ((id, n) ∷ errors) name h = elim (Bool-cases (eq_string id selector)) [
  | inl same ↦ inl (same, some_inj n name (rw same at h))
  | inr apart ↦ inr (found_lem selector errors name (rw apart at h))
]
  where
    some_inj : (a b : String) → some a ≡ some b → a ≡ b
    some_inj a b e = cc

missed_lem :
    (selector : List ℕ) (errors : List (List ℕ × String)) (name : String)
    → find_error selector errors ≡ none
    → ¬ Declares selector name errors
unfolding find_error
missed_lem selector [] name h d = absurd d
missed_lem selector ((id, n) ∷ errors) name h (inl d) = cc (rw (d.0) at h)
missed_lem selector ((id, n) ∷ errors) name h (inr d) = elim (Bool-cases (eq_string id selector)) [
  | inl same ↦ cc (rw same at h)
  | inr apart ↦ missed_lem selector errors name (rw apart at h) d
]

find_in_found :
    (selector : List ℕ) (errors : Errors) (name : String)
    → find_in selector errors ≡ some name
    → DeclaresIn selector name errors
find_in_found selector none name h = cc
find_in_found selector (some errors) name h = found_lem selector errors name h

find_in_missed :
    (selector : List ℕ) (errors : Errors) (name : String)
    → find_in selector errors ≡ none
    → ¬ DeclaresIn selector name errors
find_in_missed selector none name h d = absurd d
find_in_missed selector (some errors) name h d = missed_lem selector errors name h d

IsTruthful-next :
    (selector : List ℕ) (c : String) (errors : Errors) (contracts : List (String × Errors))
    (r : Report)
    → find_in selector errors ≡ none
    → IsTruthful selector contracts r
    → IsTruthful selector ((c, errors) ∷ contracts) r
IsTruthful-next selector c errors contracts (custom contract name) e h = inr h
IsTruthful-next selector c errors contracts (unknown found) e h = (
  h.0,
  λ contract name d. elim d [
    | inl here ↦ find_in_missed selector errors name e here.1
    | inr later ↦ h.1 contract name later
  ],
)
IsTruthful-next selector c errors contracts succeeded e h = tt
IsTruthful-next selector c errors contracts no_revert_data e h = tt
IsTruthful-next selector c errors contracts too_short e h = tt
IsTruthful-next selector c errors contracts (reason text) e h = tt

find_custom-IsTruthful :
    (selector : List ℕ) (contracts : List (String × Errors))
    → IsTruthful selector contracts (find_custom selector contracts)
unfolding find_custom
find_custom-IsTruthful selector [] = (refl, λ contract name d. d)
find_custom-IsTruthful selector ((c, errors) ∷ contracts) =
    elim (Option-cases (find_in selector errors)) [
      | inl e ↦ rw e (
          IsTruthful-next selector c errors contracts (find_custom selector contracts) e
            (find_custom-IsTruthful selector contracts))
      | inr (name, e) ↦ rw e (inl (refl, find_in_found selector errors name e))
    ]

module _ (from_hex : String → List ℕ) (unpack : List ℕ → Option String) where
  report_data-IsTruthful :
      (contracts : List (String × Errors)) (bs : List ℕ)
      → IsTruthful (selector_of bs) contracts (report_data from_hex unpack contracts bs)
  unfolding report_data
  report_data-IsTruthful contracts bs =
      elim (Bool-cases (eq_string (selector_of bs) error_selector)) [
        | inl standard ↦ rw standard (unpacked (unpack bs))
        | inr apart ↦ rw apart (find_custom-IsTruthful (selector_of bs) contracts)
      ]
    where
      unpacked :
          (o : Option String)
          → IsTruthful
              (selector_of bs)
              contracts
              (unpacked_reason o (find_custom (selector_of bs) contracts))
      unpacked (some text) = tt
      unpacked none = find_custom-IsTruthful (selector_of bs) contracts

  not_empty : (bs : List ℕ) → ltb (length bs) 4 ≡ false → (length bs == 0) ≡ false
  not_empty bs h = ground arith

  report_revert-IsTruthful :
      (contracts : List (String × Errors)) (bs : List ℕ)
      → IsTruthful (selector_of bs) contracts (report_revert from_hex unpack contracts bs)
  unfolding report_revert
  report_revert-IsTruthful contracts bs = elim (Bool-cases (length bs == 0)) [
    | inl empty ↦ rw empty tt
    | inr some_bytes ↦ elim (Bool-cases (ltb (length bs) 4)) [
      | inl short ↦ rw some_bytes (rw short tt)
      | inr long ↦ rw some_bytes (rw long (report_data-IsTruthful contracts bs))
    ]
  ]

  by_data :
      (contracts : List (String × Errors)) (bs : List ℕ)
      → IsTruthful (selector_of bs) contracts (report_revert from_hex unpack contracts bs)
        × IsTruthful
            (selector_of bs)
            contracts
            (if ltb (length bs) 4 then too_short else report_data from_hex unpack contracts bs)
        × (ltb (length bs) 4 ≡ false
            → report_revert from_hex unpack contracts bs
              ≡ (if ltb (length bs) 4 then too_short else report_data from_hex unpack contracts bs))
  unfolding report_revert
  by_data contracts bs = (
    report_revert-IsTruthful contracts bs,
    elim (Bool-cases (ltb (length bs) 4)) [
      | inl short ↦ rw short tt
      | inr long ↦ rw long (report_data-IsTruthful contracts bs)
    ],
    λ long. rw long (rw (not_empty bs long) refl),
  )

  -- What the tools report of a refused call is true of its revert data: a custom error that is named is one
  -- of that contract with the data's selector, and if the selector is called unknown then no contract has an
  -- error with it. On data of at least four bytes the two tools agree.
  pub diag-IsTruthful :
      (contracts : List (String × Errors)) (e : RpcError)
      → let bs = extract_revert_data from_hex e.error_data in
        let diagnosed = diag_availability_check_revert from_hex unpack contracts (refuses e) in
        let replayed = replay_add_tee_version from_hex unpack contracts (refuses e) in
        IsTruthful (selector_of bs) contracts diagnosed
        × IsTruthful (selector_of bs) contracts replayed
        × (ltb (length bs) 4 ≡ false → diagnosed ≡ replayed)
  unfolding diag_availability_check_revert replay_add_tee_version report_revert
  diag-IsTruthful contracts e = by_data contracts (extract_revert_data from_hex e.error_data)
