-- ===== src/Completion/Definitions/Agree.antt =====
-- The two lists of definitions.
use python_vscode.Prelude.{
  ℕ, ◌≡◌, refl, Text, Bool, false, Option, none, some, List, [], ◌∷◌, same, Bool-cases, inl, inr,
  map, All,
}
use python_vscode.Completion.Jedi.{Definition, Jedi}
use python_vscode.Completion.Definitions.{
  Range, Answer, ranged, resolved, describe, describe_placed, find, prepend, get_definitionsx,
  serialize_definitions,
}

-- An answer without its signature
abbrev pub unsigned : Answer → Answer
unsigned a = record a { signature = none }

abbrev unsigned_option : Option Answer → Option Answer
unsigned_option none = none
unsigned_option (some a) = some (unsigned a)

module _ (split_lines : Text → List Text) (is_space : ℕ → Bool) (lower : Text → Text)
    (is_upper : Text → Bool) where
  ranged-none :
      (signature : Option Text) (d : Definition) (r : Option Range)
      → ranged split_lines is_space lower is_upper none d r
        ≡ unsigned_option (ranged split_lines is_space lower is_upper signature d r)
  ranged-none signature d none = refl
  ranged-none signature d (some r) = refl

  describe_placed-describe :
      (o : Option Definition)
      → describe_placed split_lines is_space lower is_upper o
        ≡ unsigned_option (describe split_lines is_space lower is_upper false o)
  describe_placed-describe none = refl
  describe_placed-describe (some d) = elim (Bool-cases (same d.module_path [])) [
    | inl e ↦ rw e
    | inr n ↦ rw n (ranged-none _ d _)
  ]

  map-prepend :
      (o : Option Answer) (answers : List Answer)
      → prepend (unsigned_option o) (map unsigned answers) ≡ map unsigned (prepend o answers)
  map-prepend none answers = refl
  map-prepend (some a) answers = refl

  -- Where every definition has the path of a module, `_serialize_definitions` answers what
  -- `_get_definitionsx` answers, without the signatures: the same definitions are left out, in both the
  -- imports are followed, and all other fields are the same.
  pub serialize_definitions-get_definitionsx :
      (j : Jedi) (limit : ℕ) (ds : List ℕ)
      → All (λ d. same (j.definition d).module_path [] ≡ false) ds
      → serialize_definitions split_lines is_space lower is_upper j limit ds
        ≡ map unsigned (get_definitionsx split_lines is_space lower is_upper j limit false ds)
  unfolding serialize_definitions get_definitionsx
  serialize_definitions-get_definitionsx j limit [] h = refl
  serialize_definitions-get_definitionsx j limit (d ∷ ds) h =
      rw (h.0, serialize_definitions-get_definitionsx j limit ds h.1)
        (rw (describe_placed-describe (find j (resolved j limit d))) (map-prepend _ _))
