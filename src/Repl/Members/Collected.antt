-- ===== src/Repl/Members/Collected.antt =====
-- Which members are collected, and what the window reads of them.
use python_vscode.Prelude.{
  ℕ, zero, suc, Text, Bool, true, false, Option, none, some, List, [], ◌∷◌, ◌++◌, if◌then◌else◌,
  codes, same, same_iff, text_eq, length, append_assoc, arith, ◌≡◌, refl, ap, ◌∙◌, Bool-cases,
  Option-cases, inl, inr,
}
use python_vscode.Prelude.Texts.{is_in}
use python_vscode.Prelude.Options.{◌>>=◌}
use python_vscode.Prelude.Dict.{Dict, lookup, has, lookup-insert}
use python_vscode.Prelude.Int.{pos}
use python_vscode.Wire.{null, unicode}
use python_vscode.Debugger.Reports.{Field, raw, int, string}
use python_vscode.Repl.Members.{
  Members, Value, or_none, get_member_type, insert_type, instance_members, type_members, names_of,
  collected, collect_members, entries, write_member_dict, members_result,
}

-- A type that was found, or what was there
abbrev pub or_else : Option Text → Option (Option Text) → Option (Option Text)
or_else none before = before
or_else (some t) before = some (some t)

lookup-insert_type :
    (key name : Text) (t : Option Text) (members : Dict Text (Option Text))
    → lookup name (insert_type key t members)
      ≡ (if same key name then or_else t (lookup name members) else lookup name members)
lookup-insert_type key name none members = ground arith
lookup-insert_type key name (some t) members = lookup-insert key name (some t) members

or_else_idem :
    (t : Option Text) (before : Option (Option Text))
    → or_else t (or_else t before) ≡ or_else t before
or_else_idem none before = refl
or_else_idem (some t) before = refl

-- A loop over names that inserts what is found
abbrev insert_all :
    (Text → Option Text) → List Text → Dict Text (Option Text) → Dict Text (Option Text)
insert_all find [] members = members
insert_all find (name ∷ names) members =
    insert_all find names (insert_type name (find name) members)

lookup-insert_all :
    (find : Text → Option Text) (name : Text) (names : List Text)
    (members : Dict Text (Option Text))
    → lookup name (insert_all find names members) ≡ (
        if is_in name names then or_else (find name) (lookup name members) else lookup name members)
lookup-insert_all find name [] members = refl
lookup-insert_all find name (key ∷ names) members =
    lookup-insert_all find name names (insert_type key (find key) members)
    ∙ rw (lookup-insert_type key name (find key) members) (elim (Bool-cases (same key name)) [
      | inl e ↦
          rw (e, (same_iff key name).0 e)
            (elim (Bool-cases (is_in name names)) [
              | inl h ↦ rw h (or_else_idem (find name) (lookup name members))
              | inr n ↦ rw n refl
            ])
      | inr n ↦ rw n refl
    ])

instance_members-insert_all :
    (v : Value) (names : List Text) (members : Dict Text (Option Text))
    → instance_members v names members
      ≡ insert_all (λ name. get_member_type v name true) names members
unfolding instance_members
instance_members-insert_all v [] members = refl
instance_members-insert_all v (name ∷ names) members = instance_members-insert_all v names _

-- What is found among the names of `dir`
abbrev of_type : Value → Dict Text (Option Text) → Text → Option Text
of_type v instance name = if has name instance then none else get_member_type v name false

insert_type-of_type :
    (b : Bool) (name : Text) (t : Option Text) (members : Dict Text (Option Text))
    → (if b then members else insert_type name t members)
      ≡ insert_type name (if b then none else t) members
insert_type-of_type true name t members = refl
insert_type-of_type false name t members = refl

type_members-insert_all :
    (v : Value) (instance : Dict Text (Option Text)) (names : List Text)
    (members : Dict Text (Option Text))
    → type_members v instance names members ≡ insert_all (of_type v instance) names members
unfolding type_members
type_members-insert_all v instance [] members = refl
type_members-insert_all v instance (name ∷ names) members =
    rw (insert_type-of_type (has name instance) name (get_member_type v name false) members)
      (type_members-insert_all v instance names _)

abbrev pub found : Option Text → Option (Option Text)
found t = or_else t none

or_else-has :
    (b c : Bool) (t : Option Text)
    → (if c then or_else (if b then none else t) none else none)
      ≡ (if b then none else if c then found t else none)
or_else-has true true t = refl
or_else-has true false t = refl
or_else-has false c t = refl

-- What is looked up in the two dictionaries that are collected
collected-found :
    (v : Value) (name : Text)
    → (lookup name (collected v).0 ≡ (
        if is_in name (names_of v.dict_names) then found (get_member_type v name true) else none))
      × (lookup name (collected v).1 ≡ (
          if has name (collected v).0
          then none
          else if is_in name v.dir_names
          then found (get_member_type v name false)
          else none))
unfolding lookup
collected-found v name =
    let instance : Dict Text (Option Text) = instance_members v (names_of v.dict_names) [] in
    (
      ap (λ d. lookup name d) (instance_members-insert_all v (names_of v.dict_names) [])
          ∙ lookup-insert_all (λ n. get_member_type v n true) name (names_of v.dict_names) [],
      ap (λ d. lookup name d) (type_members-insert_all v instance v.dir_names [])
          ∙ (lookup-insert_all (of_type v instance) name v.dir_names []
              ∙ or_else-has (has name instance) (is_in name v.dir_names)
                  (get_member_type v name false)),
    )

-- The type of what an object gives, as a member: nothing if it gives nothing or the type cannot be had
abbrev pub known : Option (Option Text) → Option (Option Text)
known none = none
known (some none) = none
known (some (some t)) = some (some t)

-- What the class gives, and if it gives nothing, what the value gives
abbrev pub class_first : Option (Option Text) → Option (Option Text) → Option (Option Text)
class_first none on_value = known on_value
class_first (some t) on_value = known (some t)

known-or_none : (o : Option (Option Text)) → found (or_none o) ≡ known o
known-or_none none = refl
known-or_none (some none) = refl
known-or_none (some (some t)) = refl

class_first-elim :
    (o on_value : Option (Option Text))
    → found (elim o [ none ↦ or_none on_value | some t ↦ t ]) ≡ class_first o on_value
class_first-elim none on_value = known-or_none on_value
class_first-elim (some t) on_value = known-or_none (some t)

instance_type :
    (v : Value) (name : Text) → found (get_member_type v name true) ≡ known (v.in_dict name)
unfolding get_member_type
instance_type v name = known-or_none (v.in_dict name)

attribute_type :
    (v : Value) (name : Text)
    → found (get_member_type v name false) ≡ class_first (v.on_type name) (v.on_value name)
unfolding get_member_type
attribute_type v name = class_first-elim (v.on_type name) (v.on_value name)

-- Where the members of a value are collected, a name is an instance member exactly with the type of what
-- `__dict__` holds under it, if it is in `__dict__`; and it is a type member exactly with the type of the
-- attribute of the class, or else of the value, if it is in `dir` and no instance member. Names whose type
-- cannot be had are left out.
pub collect_members-found :
    (v : Value) (name : Text) {m : Members}
    → collect_members v ≡ some m
    → (lookup name m.1
        ≡ (if is_in name (names_of v.dict_names) then known (v.in_dict name) else none))
      × (lookup name m.2 ≡ (
          if has name m.1
          then none
          else if is_in name v.dir_names
          then class_first (v.on_type name) (v.on_value name)
          else none))
unfolding collect_members
collect_members-found v name {m} h = elim (Option-cases v.type_name) [
  | inl n ↦ absurd (cc (rw n at h))
  | inr (t, e) ↦
      let q : (t, (collected v).0, (collected v).1) ≡ m = cc (rw e at h) in
      rw (← q, ← instance_type v name, ← attribute_type v name) (collected-found v name)
]

-- What the window reads: pairs of strings, as many as the count says
abbrev pub read_entries : ℕ → List Field → Option (Dict Text (Option Text) × List Field)
read_entries zero fields = some ([], fields)
read_entries (suc n) (string (unicode name) ∷ string null ∷ fields) =
    read_entries n fields >>= λ r. some ((name, none) ∷ r.0, r.1)
read_entries (suc n) (string (unicode name) ∷ string (unicode t) ∷ fields) =
    read_entries n fields >>= λ r. some ((name, some t) ∷ r.0, r.1)
read_entries (suc n) fields = none

abbrev pub read_counted : List Field → Option (Dict Text (Option Text) × List Field)
read_counted (int (pos n) ∷ fields) = read_entries n fields
read_counted fields = none

abbrev pub read_members : List Field → Option (Members × List Field)
read_members (raw tag ∷ string (unicode name) ∷ fields) =
    if same tag (codes "MRES")
    then (read_counted fields >>= λ i. read_counted i.1 >>= λ t. some ((name, i.0, t.0), t.1))
    else none
read_members fields = none

read_entries-entries :
    (members : Dict Text (Option Text)) (rest : List Field)
    → read_entries (length members) (entries members ++ rest) ≡ some (members, rest)
read_entries-entries [] rest = refl
read_entries-entries ((name, none) ∷ members) rest = rw (read_entries-entries members rest) refl
read_entries-entries ((name, some t) ∷ members) rest = rw (read_entries-entries members rest) refl

read_counted-write_member_dict :
    (members : Dict Text (Option Text)) (rest : List Field)
    → read_counted (write_member_dict members ++ rest) ≡ some (members, rest)
unfolding write_member_dict
read_counted-write_member_dict members rest = read_entries-entries members rest

-- Of the message with the members of a value, followed by anything, a reader that takes as many pairs as the
-- counts say reads the same members, and nothing of what follows.
pub read_members-members_result :
    (m : Members) (rest : List Field) → read_members (members_result m ++ rest) ≡ some (m, rest)
unfolding members_result
read_members-members_result (name, instance, types) rest =
    rw
      (
        append_assoc (write_member_dict instance) (write_member_dict types) rest,
        read_counted-write_member_dict instance (write_member_dict types ++ rest),
        read_counted-write_member_dict types rest,
      )
      refl
