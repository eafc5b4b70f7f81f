-- ===== src/TestLauncher/Picked.antt =====
-- The test that is asked for.
use python_vscode.Prelude.{
  ◌≡◌, refl, Text, Bool, true, false, ◌||◌, ◌&&◌, same_iff, ap, ◌∙◌, Option, none, some, List, [],
  ◌∷◌, if◌then◌else◌, same, Bool-cases, inl, inr,
}
use python_vscode.Prelude.Texts.{starts_with, is_in}
use python_vscode.Prelude.Options.{◌>>=◌}
use python_vscode.TestLauncher.{
  TestClass, methods, no_tests, Selected, method, class, file, Choice, pick_method, pick_class,
  pick_file, chosen, select,
}

abbrev pub is_class : TestClass → Bool
is_class (methods ids) = true
is_class no_tests = false

abbrev pub all_classes : List TestClass → Bool
all_classes [] = true
all_classes (c ∷ classes) = is_class c && all_classes classes

abbrev pub all_files : List (List TestClass) → Bool
all_files [] = true
all_files (classes ∷ files) = all_classes classes && all_files files

abbrev pub class_has : Text → TestClass → Bool
class_has wanted (methods ids) = is_in wanted ids
class_has wanted no_tests = false

abbrev pub file_has : Text → List TestClass → Bool
file_has wanted [] = false
file_has wanted (c ∷ classes) = class_has wanted c || file_has wanted classes

abbrev pub any_has : Text → List (List TestClass) → Bool
any_has wanted [] = false
any_has wanted (classes ∷ files) = file_has wanted classes || any_has wanted files

-- What `tests` is once the test may have been met
abbrev pub after : Text → Bool → Option Selected → Option Selected
after wanted true o = some (method wanted)
after wanted false o = o

after-after :
    (wanted : Text) (a b : Bool) (o : Option Selected)
    → after wanted b (after wanted a o) ≡ after wanted (a || b) o
after-after wanted true true o = refl
after-after wanted true false o = refl
after-after wanted false b o = refl

pick_method-after :
    (wanted : Text) (all ids : List Text) (c : Choice)
    → (pick_method wanted all ids c).tests ≡ after wanted (is_in wanted ids) c.tests
unfolding pick_method
pick_method-after wanted all [] c = refl
pick_method-after wanted all (id ∷ ids) c = elim (Bool-cases (same id wanted)) [
  | inl e ↦ rw (e, (same_iff id wanted).0 e)
  | inr n ↦ rw n (pick_method-after wanted all ids _ ∙ ap (after wanted (is_in wanted ids)) kept)
]
  where
    kept :
        (if starts_with wanted id then record c { suite = some (class all) } else c).tests ≡ c.tests
    kept = elim (Bool-cases (starts_with wanted id)) [ inl e ↦ rw e | inr n ↦ rw n ]

-- A choice, if every class has tests, and otherwise an exception
abbrev pub IsPicked : Text → Bool → Bool → Option Selected → Option Choice → Type 0
IsPicked wanted true has tests o =
    (c : Choice) × ((o ≡ some c) × (c.tests ≡ after wanted has tests))
IsPicked wanted false has tests o = o ≡ none

pick_class-IsPicked :
    (wanted : Text) (classes : List TestClass) (c : Choice)
    → IsPicked wanted
        (all_classes classes)
        (file_has wanted classes)
        c.tests
        (pick_class wanted classes c)
unfolding pick_class
pick_class-IsPicked wanted [] c = (c, (refl, refl))
pick_class-IsPicked wanted (no_tests ∷ classes) c = refl
pick_class-IsPicked wanted (methods ids ∷ classes) c =
    let c' : Choice = pick_method wanted ids ids c in
    moved (all_classes classes) (pick_class wanted classes c')
      (pick_class-IsPicked wanted classes c')
  where
    moved :
        (b : Bool) (o : Option Choice)
        → IsPicked wanted b (file_has wanted classes) (pick_method wanted ids ids c).tests o
        → IsPicked wanted b (is_in wanted ids || file_has wanted classes) c.tests o
    moved true o (d, (e, t)) = (
      d,
      (
        e,
        t
            ∙ (ap (after wanted (file_has wanted classes)) (pick_method-after wanted ids ids c)
                ∙ after-after wanted (is_in wanted ids) (file_has wanted classes) c.tests),
      ),
    )
    moved false o e = e

pick_file-IsPicked :
    (wanted : Text) (files : List (List TestClass)) (c : Choice)
    → IsPicked wanted (all_files files) (any_has wanted files) c.tests (pick_file wanted files c)
unfolding pick_file
pick_file-IsPicked wanted [] c = (c, (refl, refl))
pick_file-IsPicked wanted (classes ∷ files) c =
    let begun : Choice = record c { suite = some (file classes) } in
    moved (all_classes classes) (all_files files) (pick_class wanted classes begun)
      (λ d. pick_file-IsPicked wanted files d) (pick_class-IsPicked wanted classes begun)
  where
    moved :
        (a b : Bool) (o : Option Choice)
        → ((d : Choice)
            → IsPicked wanted b (any_has wanted files) d.tests (pick_file wanted files d))
        → IsPicked wanted a (file_has wanted classes) c.tests o
        → IsPicked wanted
            (a && b)
            (file_has wanted classes || any_has wanted files)
            c.tests
            (o >>= λ d. pick_file wanted files d)
    moved false b o next e = rw e
    moved true false o next (d, (e, t)) = rw e (next d)
    moved true true o next (d, (e, t)) =
        let (d', (e', t')) = next d in
        (
          d',
          (
            rw e e',
            t'
                ∙ (ap (after wanted (any_has wanted files)) t
                    ∙ after-after wanted (file_has wanted classes) (any_has wanted files) c.tests),
          ),
        )

-- If a test with the id that is asked for is found, then that test is what is run, whatever other
-- tests have an id that starts with it; but if anything that is found has no tests, as a file that
-- cannot be imported has none, then the selection fails, although the test is there.
pub select-method :
    (wanted : Text) (files : List (List TestClass))
    → any_has wanted files ≡ true
    → select (some wanted) files ≡ (if all_files files then some (some (method wanted)) else none)
unfolding select
select-method wanted files h =
    picked (all_files files) (pick_file wanted files (record { suite = none; tests = none }))
      (pick_file-IsPicked wanted files (record { suite = none; tests = none }))
  where
    picked :
        (b : Bool) (o : Option Choice)
        → IsPicked wanted b (any_has wanted files) none o
        → (o >>= λ c. some (chosen c)) ≡ (if b then some (some (method wanted)) else none)
    picked false o e = rw e
    picked true o (c, (e, t)) = rw (e, t, h)
