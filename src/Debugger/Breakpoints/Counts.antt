-- ===== src/Debugger/Breakpoints/Counts.antt =====
-- The commands that look a breakpoint up by its id, and its removal.
use mathlib.Core.Path.{subst₂}
use python_vscode.Prelude.{
  ◌&&◌, ℕ, zero, suc, ◌-◌, ◌≡◌, refl, Bool, true, false, Option, none, some, List, [], ◌∷◌, ◌++◌,
  arith, get_elem?, All, Bool-cases, Option-cases, inl, inr, if◌then◌else◌, ◌==◌, ==_iff, nat_eq,
}
use python_vscode.Prelude.Dict.{Dict, lookup, Distinct, lookup-insert, lookup-remove}
use python_vscode.Debugger.Check.{BreakpointInfo}
use python_vscode.Debugger.Breakpoints.{
  Line, State, hit_count_reply, modify, find_in_line, find_by_id, remove_first, is_nil,
  remove_found, or_empty, hits_of, command_set_breakpoint_hit_count,
  command_get_breakpoint_hit_count, command_remove_breakpoint,
}
use python_vscode.Debugger.Breakpoints.Table.{Describes, EntryOk, LineOk, IsWellFormed}

-- The entries of a line with an id.
abbrev pub count_id : ℕ → Line → ℕ
count_id id [] = 0
count_id id (((file, i), r) ∷ d) = if i == id then suc (count_id id d) else count_id id d

count_id-remove_first :
    (id j : ℕ) (d : Line)
    → count_id j (remove_first id d) ≡ (if j == id then count_id j d - 1 else count_id j d)
unfolding remove_first
count_id-remove_first id j [] = ground arith
count_id-remove_first id j (((file, i), r) ∷ d) = ground (arith, count_id-remove_first id j d)

remove_first-absent : (id : ℕ) (d : Line) → find_in_line id d ≡ none → remove_first id d ≡ d
unfolding remove_first find_in_line
remove_first-absent id [] h = refl
remove_first-absent id (((file, i), r) ∷ d) h = ground (arith, remove_first-absent id d)

abbrev pub entries_at : ℕ → Dict ℕ Line → Line
entries_at line t = or_empty (lookup line t)

is_nil-eq : {A : Type 0} (xs : List A) → is_nil xs ≡ true → xs ≡ []
is_nil-eq [] h = refl
is_nil-eq (x ∷ xs) h = cc

entries_at-remove_found :
    (line id l : ℕ) (d : Line) (t : Dict ℕ Line)
    → Distinct t
    → lookup line t ≡ some d
    → entries_at l (remove_found line id d (find_in_line id d) t)
      ≡ (if line == l then remove_first id d else entries_at l t)
entries_at-remove_found line id l d t u e =
    go (find_in_line id d) refl (is_nil (remove_first id d)) refl
  where
    go :
        (o : Option ℕ)
        → find_in_line id d ≡ o
        → (b : Bool) → is_nil (remove_first id d) ≡ b
        → entries_at l (remove_found line id d o t)
          ≡ (if line == l then remove_first id d else entries_at l t)
    go none f b q = ground (arith, remove_first-absent id d, ==_iff line l, e)
    go (some r) f true q =
        rw q (rw (lookup-remove line l t u) (ground (arith, is_nil-eq (remove_first id d))))
    go (some r) f false q = rw q (rw (lookup-insert line l (remove_first id d) t) (ground arith))

-- Removing a breakpoint takes one entry with its id from its line, if there is one, and changes
-- neither the number of entries with any other id there nor any other line.
pub command_remove_breakpoint_lem :
    {V : Type 0} (line id l j : ℕ) (s : State V)
    → IsWellFormed s
    → count_id j (entries_at l (command_remove_breakpoint line id s).table) ≡ (
        if (line == l) && (j == id)
        then count_id j (entries_at l s.table) - 1
        else count_id j (entries_at l s.table))
unfolding command_remove_breakpoint
command_remove_breakpoint_lem line id l j s w = elim (Option-cases (lookup line s.table)) [
  | inl absent ↦ rw absent (elim (Bool-cases (line == l)) [
    | inl here ↦
        let gone : lookup l s.table ≡ none = rw ((==_iff line l).0 here) at absent in
        rw (here, gone) (ground arith)
    | inr other ↦ rw other
  ])
  | inr (d, e) ↦ rw e (
      rw (entries_at-remove_found line id l d s.table w.distinct e) (elim (Bool-cases (line == l)) [
        | inl here ↦
            let found : lookup l s.table ≡ some d = rw ((==_iff line l).0 here) at e in
            rw (here, found) (count_id-remove_first id j d)
        | inr other ↦ rw other
      ]))
]

module _ {V : Type 0} where
  find_in_line-Describes :
      (os : List (BreakpointInfo V)) (line id : ℕ) (d : Line) {r : ℕ}
      → All (EntryOk os line) d
      → find_in_line id d ≡ some r
      → Describes line id (get_elem? os r)
  unfolding find_in_line
  find_in_line-Describes os line id [] h e = cc
  find_in_line-Describes os line id (((file, i), q) ∷ d) {r} h e = elim (Bool-cases (i == id)) [
    | inl here ↦ subst₂ (λ a b. Describes line a (get_elem? os b)) (ground arith) (ground arith) h.0
    | inr later ↦ find_in_line-Describes os line id d h.1 (ground arith)
  ]

  -- What is found by id is an object with that id.
  pub find_by_id-Describes :
      (os : List (BreakpointInfo V)) (id : ℕ) (t : Dict ℕ Line) {r : ℕ}
      → All (LineOk os) t
      → find_by_id id t ≡ some r
      → (line : ℕ) × Describes line id (get_elem? os r)
  unfolding find_by_id
  find_by_id-Describes os id [] h e = cc
  find_by_id-Describes os id ((line, d) ∷ t) h e = elim (Option-cases (find_in_line id d)) [
    | inl absent ↦ find_by_id-Describes os id t h.1 (ground arith)
    | inr (q, f) ↦ (line, find_in_line-Describes os line id d h.0.0 (ground arith))
  ]

  get_elem?-modify_self :
      (f : BreakpointInfo V → BreakpointInfo V) (r : ℕ) (os : List (BreakpointInfo V))
      {bp : BreakpointInfo V}
      → get_elem? os r ≡ some bp
      → get_elem? (modify f r os) r ≡ some (f bp)
  unfolding modify
  get_elem?-modify_self f r [] e = cc
  get_elem?-modify_self f zero (o ∷ os) e = ground arith
  get_elem?-modify_self f (suc r) (o ∷ os) e = get_elem?-modify_self f r os e

  hits_of-modified :
      (count line id r : ℕ) (os : List (BreakpointInfo V))
      → Describes line id (get_elem? os r)
      → hits_of (get_elem? (modify (λ bp. record bp { hit_count = count }) r os) r) ≡ count
  hits_of-modified count line id r os d = elim (Option-cases (get_elem? os r)) [
    | inl gone ↦ absurd (rw gone at d)
    | inr (bp, e) ↦ rw (get_elem?-modify_self (λ b. record b { hit_count = count }) r os e)
  ]

  -- The hit count that is set for an id is the one that is reported for that id afterwards, if some
  -- breakpoint has the id; otherwise 0 is reported.
  pub command_get-set_hit_count :
      (req id count : ℕ) (s : State V)
      → IsWellFormed s
      → (command_get_breakpoint_hit_count req id (command_set_breakpoint_hit_count id count s)).sent
        ≡ s.sent
          ++ hit_count_reply req
              (elim (find_by_id id s.table) as (λ _. ℕ) [ none ↦ 0 | some r ↦ count ])
            ∷ []
  unfolding command_get_breakpoint_hit_count command_set_breakpoint_hit_count
  command_get-set_hit_count req id count s w = elim (Option-cases (find_by_id id s.table)) [
    | inl absent ↦ rw (absent, absent)
    | inr (r, e) ↦
        let (line, d) = find_by_id-Describes s.objects id s.table w.lines e in
        rw (e, e, hits_of-modified count line id r s.objects d)
  ]
