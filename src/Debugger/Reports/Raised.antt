-- ===== src/Debugger/Reports/Raised.antt =====
-- The report of an exception, and the name that it gives to the exception in the frame's locals. How `%d`
-- prints a number is a parameter.
use python_vscode.Prelude.{
  ℕ, zero, suc, ◌≤◌, ◌<◌, ◌≡◌, refl, sym, ap, ◌∙◌, Text, Bool, true, false, Option, none, some,
  List, [], ◌∷◌, ◌++◌, ◌==◌, if◌then◌else◌, same, same_iff, codes, length, arith, Bool-cases, inl,
  inr,
}
use python_vscode.Prelude.Int.{pos}
use python_vscode.Prelude.Dict.{Dict}
use python_vscode.Prelude.Texts.{is_in}
use python_vscode.Prelude.Options.{◌>>=◌}
use python_vscode.Debugger.Reports.{Field, raw, int, text}

-- What is known of the exception: its type's name, its text, the break type, the trace if it can be had,
-- whether the frame is that of a Django template, and the names of the frame's locals
pub record Exc : Type 0 where
  pub type_name : Text
  pub message : Text
  pub break_type : ℕ
  pub trace : Option Text
  pub is_template : Bool
  pub local_names : List Text

module _ (decimal : ℕ → Text) where
  -- The names that are tried
  abbrev pub candidate : ℕ → Text
  candidate zero = codes "__exception_info"
  candidate (suc i) = codes "__exception_info_" ++ decimal (suc i)

  -- `while data['excvalue'] in frame.f_locals`, from the name number `i` on
  unfoldable pub free_name : ℕ → ℕ → List Text → Option Text
  free_name zero i names = none
  free_name (suc fuel) i names =
      let next = free_name fuel (suc i) names in
      if is_in (candidate i) names then next else some (candidate i)

  abbrev pub optional : Text → Option Text → Dict Text Text
  optional key none = []
  optional key (some value) = (key, value) ∷ []

  -- `data`, with the fuel for the loop, one more than there are locals
  unfoldable pub exception_data : Exc → Option (Dict Text Text)
  unfolding free_name
  exception_data e = do
    name ← free_name (suc (length e.local_names)) 0 e.local_names
    some (
        (codes "typename", e.type_name)
        ∷ (codes "message", e.message)
        ∷ (optional (codes "breaktype")
              (if e.break_type == 1 then some (codes "unhandled") else none)
            ++ (optional (codes "trace") e.trace
                ++ optional (codes "excvalue") (if e.is_template then none else some name))))

  abbrev pub pairs_fields : Dict Text Text → List Field
  pairs_fields [] = []
  pairs_fields ((key, value) ∷ pairs) = text key ∷ text value ∷ pairs_fields pairs

  -- RICH_EXCEPTIONS, the thread, the exception and its data
  unfoldable pub report_exception : Bool → ℕ → Exc → Dict Text Text → List Field
  report_exception true thread e pairs =
      raw (codes "EXC2") ∷ int (pos thread) ∷ int (pos (length pairs)) ∷ pairs_fields pairs
  report_exception false thread e pairs =
      raw (codes "EXCP")
      ∷ text e.type_name
      ∷ int (pos thread)
      ∷ int (pos (if e.break_type == 1 then 1 else 0))
      ∷ text e.message
      ∷ []

  -- A list without the first entry that is a text
  abbrev pub erase : Text → List Text → List Text
  erase t [] = []
  erase t (u ∷ us) = let rest = erase t us in if same u t then us else u ∷ rest

  length-erase :
      (t : Text) (us : List Text) → is_in t us ≡ true → length us ≡ suc (length (erase t us))
  length-erase t [] h = cc
  length-erase t (u ∷ us) h = elim (Bool-cases (same u t)) [
    | inl e ↦ rw e
    | inr n ↦ rw n (ap suc (length-erase t us (rw n at h)))
  ]

  is_in-erase : (t s : Text) (us : List Text) → same t s ≡ false → is_in s (erase t us) ≡ is_in s us
  is_in-erase t s [] h = refl
  is_in-erase t s (u ∷ us) h = elim (Bool-cases (same u t)) [
    | inl e ↦ rw (e, (same_iff u t).0 e, h)
    | inr n ↦ rw (n, is_in-erase t s us h)
  ]

  -- Among the names from a number on, those in one list are those in another.
  abbrev pub Agree : ℕ → List Text → List Text → Type 0
  Agree i names us = (j : ℕ) → i ≤ j → is_in (candidate j) names ≡ is_in (candidate j) us

  module _ (distinct : (i j : ℕ) → i < j → same (decimal i) (decimal j) ≡ false) where
    candidate_distinct : (i j : ℕ) → i < j → same (candidate i) (candidate j) ≡ false
    candidate_distinct zero zero h = absurd (omega arith)
    candidate_distinct zero (suc j) h = refl
    candidate_distinct (suc i) zero h = absurd (omega arith)
    candidate_distinct (suc i) (suc j) h = distinct (suc i) (suc j) h

    free_name-among :
        (fuel i : ℕ) (names us : List Text)
        → Agree i names us
        → length us < fuel
        → (name : Text) × ((free_name fuel i names ≡ some name) × (is_in name names ≡ false))
    unfolding free_name
    free_name-among zero i names us a h = absurd (omega arith)
    free_name-among (suc fuel) i names us a h = elim (Bool-cases (is_in (candidate i) names)) [
      | inl used ↦
          let l : length us ≡ suc (length (erase (candidate i) us)) =
            length-erase (candidate i) us (sym (a i (omega arith)) ∙ used) in
          rw used (
            free_name-among fuel (suc i) names (erase (candidate i) us)
              (λ j k.
                a j (omega arith)
                ∙ sym (
                    is_in-erase (candidate i) (candidate j) us
                      (candidate_distinct i j (omega arith))))
              (omega (arith, l)))
      | inr free ↦ rw free (candidate i, (refl, free))
    ]

    -- If no two numbers print alike, then the loop that looks for a name that no local of the frame has ends
    -- after at most one turn more than there are locals, with such a name.
    pub free_name-returns :
        (names : List Text)
        → (name : Text) × ((free_name (suc (length names)) 0 names ≡ some name)
            × (is_in name names ≡ false))
    free_name-returns names =
        free_name-among (suc (length names)) 0 names names (λ j k. refl) (omega arith)
