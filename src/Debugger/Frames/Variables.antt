-- ===== src/Debugger/Frames/Variables.antt =====
-- The variables of a frame.
use python_vscode.Prelude.{
  ◌≡◌, refl, sym, ap, ◌∙◌, Text, Bool, true, false, ◌||◌, Option, none, some, List, [], ◌∷◌, ◌++◌,
  if◌then◌else◌, same, same_iff, text_eq, arith, Bool-cases, inl, inr,
}
use python_vscode.Prelude.Dict.{Dict, lookup, has, Distinct}
use python_vscode.Prelude.Texts.{is_in}
use python_vscode.Debugger.Frames.{
  Collected, add_variable, collect_one, collect_variables, keys, CodeFrame, frame_variables,
}

module _ {ℓ} {B : Type ℓ} where
  abbrev pub or_else : Option B → Option B → Option B
  or_else none b = b
  or_else (some a) b = some a

  or_else-none : (o : Option B) → or_else o none ≡ o
  or_else-none none = refl
  or_else-none (some b) = refl

  or_else_if : (b : Bool) (o : Option B) → or_else o (if b then none else none) ≡ o
  or_else_if true o = or_else-none o
  or_else_if false o = or_else-none o

  or_else_assoc : (a b c : Option B) → or_else (or_else a b) c ≡ or_else a (or_else b c)
  or_else_assoc none b c = refl
  or_else_assoc (some a) b c = refl

  or_else_again : (b : Bool) (o : Option B) → or_else o (if b then o else none) ≡ o
  or_else_again true none = refl
  or_else_again false none = refl
  or_else_again b (some a) = refl

module _ {A : Type 0} where
  -- What a name is found as: an object, an undefined name, or nothing if such names are skipped
  abbrev pub found : Bool → Option A → Option (Option A)
  found skip_unknown (some object) = some (some object)
  found skip_unknown none = if skip_unknown then none else some none

  abbrev pub if_in : Text → List Text → Option (Option A) → Option (Option A)
  if_in name names value = if is_in name names then value else none

  -- The same names are treated as have a variable, and no name has two.
  abbrev pub IsTidy : Collected A → Type 0
  IsTidy (vars, treated) = ((name : Text) → is_in name treated ≡ has name vars) × Distinct vars

  lookup-append :
      (t name : Text) (object : Option A) (vars : Dict Text (Option A))
      → lookup t (vars ++ (name, object) ∷ [])
        ≡ or_else (lookup t vars) (if same name t then some object else none)
  unfolding lookup
  lookup-append t name object [] = elim (Bool-cases (same name t)) [ inl e ↦ rw e | inr e ↦ rw e ]
  lookup-append t name object ((k, v) ∷ vars) = elim (Bool-cases (same k t)) [
    | inl e ↦ rw e
    | inr n ↦ rw (n, lookup-append t name object vars)
  ]

  has-append :
      (t name : Text) (object : Option A) (vars : Dict Text (Option A))
      → has t (vars ++ (name, object) ∷ []) ≡ (if same name t then true else has t vars)
  unfolding has
  has-append t name object [] = ground arith
  has-append t name object ((k, v) ∷ vars) = ground (arith, has-append t name object vars)

  append-Distinct :
      (name : Text) (object : Option A) (vars : Dict Text (Option A))
      → Distinct vars
      → has name vars ≡ false
      → Distinct (vars ++ (name, object) ∷ [])
  unfolding has
  append-Distinct name object [] d n = (refl, tt)
  append-Distinct name object ((k, v) ∷ vars) d n = ground (
    arith,
    has-append k name object vars,
    same_iff k name,
    same_iff name k,
    append-Distinct name object vars d.1,
  )

  lookup-eq-none :
      (t : Text) (vars : Dict Text (Option A)) → has t vars ≡ false → lookup t vars ≡ none
  unfolding lookup has
  lookup-eq-none t [] n = refl
  lookup-eq-none t ((k, v) ∷ vars) n = ground (arith, lookup-eq-none t vars)

  lookup-ne-none :
      (t : Text) (vars : Dict Text (Option A)) (b : Option (Option A))
      → has t vars ≡ true
      → or_else (lookup t vars) b ≡ lookup t vars
  unfolding lookup has
  lookup-ne-none t [] b n = cc
  lookup-ne-none t ((k, v) ∷ vars) b n = elim (Bool-cases (same k t)) [
    | inl e ↦ rw e
    | inr m ↦ rw m (lookup-ne-none t vars b (rw m at n))
  ]

  add_variable-IsTidy :
      (name : Text) (object : Option A) (c : Collected A)
      → IsTidy c
      → is_in name c.1 ≡ false
      → IsTidy (add_variable name object c)
  add_variable-IsTidy name object (vars, treated) h n = (
    (λ t. ground (arith, h.0 t, has-append t name object vars)),
    append-Distinct name object vars h.1 (sym (h.0 name) ∙ n),
  )

  module _ (skip : Bool) (objects : Dict Text A) where
    -- What a name of the list is found as
    abbrev pub found_in : Text → Option (Option A)
    found_in name = found skip (lookup name objects)

    -- What one turn of the loop leaves
    abbrev pub IsTurned : Text → Collected A → Collected A → Type 0
    IsTurned name c c' =
        IsTidy c'
        × ((t : Text)
            → lookup t c'.0 ≡ or_else (lookup t c.0) (if same name t then found_in name else none))

    collect_one-IsTurned :
        (name : Text) (o : Option A) (c : Collected A)
        → lookup name objects ≡ o
        → IsTidy c
        → is_in name c.1 ≡ false
        → IsTurned name c (collect_one skip name o c)
    collect_one-IsTurned name (some object) c e h n = (
      add_variable-IsTidy name (some object) c h n,
      λ t. rw e (lookup-append t name (some object) c.0),
    )
    collect_one-IsTurned name none c e h n = elim (Bool-cases skip) [
      | inl s ↦ rw s (h, λ t. rw e (sym (or_else_if (same name t) (lookup t c.0))))
      | inr s ↦
          rw s (add_variable-IsTidy name none c h n, λ t. rw e (lookup-append t name none c.0))
    ]

    known-lookup :
        (name t : Text) (c : Collected A)
        → IsTidy c
        → is_in name c.1 ≡ true
        → lookup t c.0 ≡ or_else (lookup t c.0) (if same name t then found_in name else none)
    known-lookup name t c h i = elim (Bool-cases (same name t)) [
      | inl e ↦ rw e (
          sym (
            lookup-ne-none t c.0 (found_in name)
              (rw (← (same_iff name t).0 e) (sym (h.0 name) ∙ i))))
      | inr n ↦ rw n (sym (or_else-none (lookup t c.0)))
    ]

    turn-IsTurned :
        (name : Text) (c : Collected A)
        → IsTidy c
        → IsTurned name c
            (if is_in name c.1 then c else collect_one skip name (lookup name objects) c)
    turn-IsTurned name c h = elim (Bool-cases (is_in name c.1)) [
      | inl i ↦ rw i (h, λ t. known-lookup name t c h i)
      | inr n ↦ rw n (collect_one-IsTurned name (lookup name objects) c refl h n)
    ]

    -- A name that is one of two
    or_else-if_in :
        (name t : Text) (names : List Text)
        → or_else (if same name t then found_in name else none) (if_in t names (found_in t))
          ≡ if_in t (name ∷ names) (found_in t)
    or_else-if_in name t names = elim (Bool-cases (same name t)) [
      | inl e ↦ rw e (rw ((same_iff name t).0 e) (or_else_again (is_in t names) (found_in t)))
      | inr n ↦ rw n
    ]

    collect_variables_lem :
        (names : List Text) (c : Collected A)
        → IsTidy c
        → IsTidy (collect_variables skip objects names c)
          × ((t : Text)
              → lookup t (collect_variables skip objects names c).0
                ≡ or_else (lookup t c.0) (if_in t names (found_in t)))
    unfolding collect_variables
    collect_variables_lem [] c h = (h, λ t. sym (or_else-none (lookup t c.0)))
    collect_variables_lem (name ∷ names) c h =
        let c' : Collected A =
          if is_in name c.1 then c else collect_one skip name (lookup name objects) c in
        let turned : IsTurned name c c' = turn-IsTurned name c h in
        let rest = collect_variables_lem names c' turned.0 in
        (
          rest.0,
          λ t.
              rest.1 t
              ∙ (ap (λ o. or_else o (if_in t names (found_in t))) (turned.1 t)
                  ∙ (or_else_assoc (lookup t c.0) (if same name t then found_in name else none)
                        (if_in t names (found_in t))
                      ∙ ap (or_else (lookup t c.0)) (or_else-if_in name t names))),
        )

  is_in-keys : (t : Text) (d : Dict Text A) → is_in t (keys d) ≡ has t d
  unfolding has
  is_in-keys t [] = refl
  is_in-keys t ((k, v) ∷ d) = ground (arith, is_in-keys t d)

  -- What a frame shows for a name. A local name is shown with its object or as undefined, a name of the
  -- code that is a global one with its object, and nothing else is shown.
  abbrev pub shown : CodeFrame A → Text → Option (Option A)
  shown f t =
      if f.locals_are_globals
      then (if has t f.f_locals then some (lookup t f.f_locals) else none)
      else if is_in t f.co_varnames || has t f.f_locals
      then some (lookup t f.f_locals)
      else if is_in t f.co_names
      then found true (lookup t f.f_globals)
      else none

  found-false : (o : Option A) → found false o ≡ some o
  found-false none = refl
  found-false (some object) = refl

  -- The three collections of a function, put together
  three_of :
      (a b c : Bool) (o : Option A) (g : Option (Option A))
      → or_else
          (or_else (or_else none (if a then some o else none)) (if b then some o else none))
          (if c then g else none)
        ≡ (if a || b then some o else if c then g else none)
  three_of true b c o g = refl
  three_of false true c o g = refl
  three_of false false c o g = refl

  -- The variables that are sent of a frame have each name once, and the name of a variable shows what
  -- the frame has for it: in a module the locals, and in a function the local names first, whether they
  -- have a value or not, and then the global names that the code uses and that have one.
  pub frame_variables-shown :
      (f : CodeFrame A)
      → Distinct (frame_variables f).0 × ((t : Text) → lookup t (frame_variables f).0 ≡ shown f t)
  unfolding frame_variables lookup has
  frame_variables-shown f =
      let empty : IsTidy ([], []) = (λ name. refl, tt) in
      elim (Bool-cases f.locals_are_globals) [
        | inl m ↦
            let c = collect_variables_lem false f.f_locals (keys f.f_locals) ([], []) empty in
            rw m (
              c.0.1,
              λ t. c.1 t ∙ rw (is_in-keys t f.f_locals, found-false (lookup t f.f_locals)) refl,
            )
        | inr n ↦
            let c = collect_variables_lem false f.f_locals f.co_varnames ([], []) empty in
            let d = collect_variables_lem false f.f_locals (keys f.f_locals) _ c.0 in
            let e = collect_variables_lem true f.f_globals f.co_names _ d.0 in
            rw n (
              e.0.1,
              λ t.
                  e.1 t
                  ∙ (ap (λ o. or_else o (if_in t f.co_names (found_in true f.f_globals t)))
                        (d.1 t
                          ∙ ap
                              (λ o.
                                or_else o (if_in t (keys f.f_locals) (found_in false f.f_locals t)))
                              (c.1 t))
                      ∙ rw (is_in-keys t f.f_locals, found-false (lookup t f.f_locals))
                          (three_of (is_in t f.co_varnames) (has t f.f_locals) (is_in t f.co_names)
                            (lookup t f.f_locals) (found true (lookup t f.f_globals)))),
            )
      ]
