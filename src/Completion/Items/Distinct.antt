-- ===== src/Completion/Items/Distinct.antt =====
-- The texts of the results, up to a `=`.
use python_vscode.Prelude.{
  ◌≡◌, refl, ◌∙◌, Text, Bool, true, false, Option, none, some, List, [], ◌∷◌, ◌++◌, if◌then◌else◌,
  same, same_iff, arith, Bool-cases, inl, inr, All,
}
use python_vscode.Prelude.Texts.{split}
use python_vscode.Completion.{Attempt}
use python_vscode.Completion.Jedi.{Signature, Completion}
use python_vscode.Completion.Signatures.{get_call_signatures}
use python_vscode.Completion.Items.{
  Item, key, has_key, retype, add_completion, add_completions, completion_item, argument_items,
  or_none, serialize_completions,
}

-- No two entries have the same key.
abbrev pub Distinct : List Item → Type 0
Distinct [] = Unit
Distinct (c ∷ items) = (has_key (key c) items ≡ false) × Distinct items

-- A name has no `=`.
abbrev pub IsPlain : Option Completion → Type 0
IsPlain none = Unit
IsPlain (some c) = (split 61 c.name).0 ≡ c.name

-- An entry is there for a completion.
abbrev pub IsListed : List Item → Option Completion → Type 0
IsListed items none = Unit
IsListed items (some c) = has_key c.name items ≡ true

has_key-retype :
    (t : Text) (new : Item) (items : List Item) → has_key t (retype new items) ≡ has_key t items
unfolding has_key retype
has_key-retype t new [] = refl
has_key-retype t new (c ∷ items) = elim (Bool-cases (same c.text new.text)) [
  | inl e ↦ rw (e, has_key-retype t new items)
  | inr n ↦ rw (n, has_key-retype t new items)
]

retype-Distinct : (new : Item) (items : List Item) → Distinct items → Distinct (retype new items)
unfolding retype
retype-Distinct new [] d = tt
retype-Distinct new (c ∷ items) d = elim (Bool-cases (same c.text new.text)) [
  | inl e ↦ rw e (has_key-retype (key c) new items ∙ d.0, retype-Distinct new items d.1)
  | inr n ↦ rw n (has_key-retype (key c) new items ∙ d.0, retype-Distinct new items d.1)
]

has_key-append :
    (t : Text) (items : List Item) (new : Item)
    → has_key t (items ++ new ∷ []) ≡ (if same (key new) t then true else has_key t items)
unfolding has_key
has_key-append t [] new = ground arith
has_key-append t (c ∷ items) new = ground (arith, has_key-append t items new)

append-Distinct :
    (items : List Item) (new : Item)
    → Distinct items
    → has_key (key new) items ≡ false
    → Distinct (items ++ new ∷ [])
unfolding has_key
append-Distinct [] new d h = (refl, tt)
append-Distinct (c ∷ items) new d h = ground (
  arith,
  has_key-append (key c) items new,
  same_iff (key c) (key new),
  same_iff (key new) (key c),
  append-Distinct items new d.1,
)

module _ (new : Item) (items : List Item) where
  add_completion-Distinct :
      key new ≡ new.text → Distinct items → Distinct (add_completion new items)
  unfolding add_completion
  add_completion-Distinct p d = elim (Bool-cases (has_key new.text (retype new items))) [
    | inl h ↦ rw h (retype-Distinct new items d)
    | inr n ↦ rw n (append-Distinct (retype new items) new (retype-Distinct new items d) (rw p n))
  ]

  has_key-add_completion :
      (t : Text) → has_key t items ≡ true → has_key t (add_completion new items) ≡ true
  unfolding add_completion
  has_key-add_completion t k = elim (Bool-cases (has_key new.text (retype new items))) [
    | inl h ↦ rw h (has_key-retype t new items ∙ k)
    | inr n ↦
        rw n (ground (arith, has_key-append t (retype new items) new, has_key-retype t new items))
  ]

  has_key-add_completion_self :
      key new ≡ new.text → has_key new.text (add_completion new items) ≡ true
  unfolding add_completion
  has_key-add_completion_self p = elim (Bool-cases (has_key new.text (retype new items))) [
    | inl h ↦ rw h h
    | inr n ↦ rw n (
        ground (arith, has_key-append new.text (retype new items) new, same_iff (key new) new.text))
  ]

module _ (lower : Text → Text) (is_upper : Text → Bool) where
  has_key-add_completions :
      (t : Text) (cs : List (Option Completion)) (items : List Item)
      → has_key t items ≡ true
      → has_key t (add_completions lower is_upper cs items) ≡ true
  unfolding add_completions
  has_key-add_completions t [] items h = h
  has_key-add_completions t (none ∷ cs) items h = has_key-add_completions t cs items h
  has_key-add_completions t (some c ∷ cs) items h =
      has_key-add_completions t cs _
        (has_key-add_completion (completion_item lower is_upper c) items t h)

  add_completions-Distinct :
      (cs : List (Option Completion)) (items : List Item)
      → All IsPlain cs
      → Distinct items
      → Distinct (add_completions lower is_upper cs items)
        × All (IsListed (add_completions lower is_upper cs items)) cs
  unfolding add_completions completion_item
  add_completions-Distinct [] items p d = (d, tt)
  add_completions-Distinct (none ∷ cs) items p d =
      let rest = add_completions-Distinct cs items p.1 d in (rest.0, (tt, rest.1))
  add_completions-Distinct (some c ∷ cs) items p d =
      let new : Item = completion_item lower is_upper c in
      let items' : List Item = add_completion new items in
      let rest = add_completions-Distinct cs items' p.1 (add_completion-Distinct new items p.0 d) in
      (
        rest.0,
        (
          has_key-add_completions c.name cs items' (has_key-add_completion_self new items p.0),
          rest.1,
        ),
      )

  -- If no name of a completion has a `=`, and the arguments of the calls that the prefix leaves are
  -- distinct, then no two entries of the results are the same up to a `=`, and every completion that
  -- does not raise has an entry.
  pub serialize_completions-Distinct :
      (fuzzy : Bool) (prefix : Text) (signatures : Attempt (List Signature))
      (completions : Attempt (List (Option Completion)))
      → All IsPlain (or_none completions)
      → Distinct (argument_items lower is_upper fuzzy prefix (get_call_signatures signatures))
      → Distinct (serialize_completions lower is_upper fuzzy prefix signatures completions)
        × All
            (IsListed (serialize_completions lower is_upper fuzzy prefix signatures completions))
            (or_none completions)
  unfolding serialize_completions
  serialize_completions-Distinct fuzzy prefix signatures completions p d =
      add_completions-Distinct (or_none completions) _ p d
