-- ===== src/Debugger/Breakpoints/Table.antt =====
-- The dictionary of breakpoints under its operations.
use python_vscode.Prelude.{
  ℕ, zero, suc, ◌<◌, ◌≡◌, ◌≢◌, refl, ◌∙◌, Bool, true, false, Option, none, some, List, [], ◌∷◌,
  ◌++◌, Text, arith, length, get_elem?, All, nat_eq, text_eq, pair_eq, Bool-cases, Option-cases,
  inl, inr, ◌==◌, same,
}
use python_vscode.Prelude.Dict.{
  Dict, lookup, insert, has, Distinct, insert-Distinct, remove-Distinct,
}
use python_vscode.Prelude.{All-map}
use python_vscode.Prelude.Dict.Entries.{All-insert, All-remove, All-lookup}
use python_vscode.Debugger.Check.{BreakpointInfo}
use python_vscode.Debugger.Breakpoints.{
  Key, Line, State, or_empty, modify, find_in_line, remove_first, is_nil, add_at, remove_at,
  remove_found,
}

insert-ne-nil : (k : Key) (r : ℕ) (d : Line) → insert k r d ≢ []
unfolding insert
insert-ne-nil k r [] = λ e. cc
insert-ne-nil k r ((j, w) ∷ d) = ground arith

has-remove_first :
    (k : Key) (id : ℕ) (d : Line) → has k d ≡ false → has k (remove_first id d) ≡ false
unfolding has remove_first
has-remove_first k id [] h = refl
has-remove_first k id (((file, i), r) ∷ d) h = ground (arith, has-remove_first k id d)

remove_first-Distinct : (id : ℕ) (d : Line) → Distinct d → Distinct (remove_first id d)
unfolding remove_first
remove_first-Distinct id [] u = tt
remove_first-Distinct id (((file, i), r) ∷ d) u =
    ground (arith, has-remove_first (file, i) id d, remove_first-Distinct id d)

module _ {V : Type 0} where
  -- What is fixed of an object, and what the keys of a line say of it.
  abbrev pub Describes : ℕ → ℕ → Option (BreakpointInfo V) → Type 0
  Describes line id none = ⊥
  Describes line id (some bp) = (bp.lineno ≡ line) × (bp.breakpoint_id ≡ id)

  abbrev pub EntryOk : List (BreakpointInfo V) → ℕ → Key × ℕ → Type 0
  EntryOk objects line ((file, id), r) = Describes line id (get_elem? objects r)

  abbrev pub LineOk : List (BreakpointInfo V) → ℕ × Line → Type 0
  LineOk objects (line, d) = All (EntryOk objects line) d × (d ≢ []) × Distinct d

  abbrev pub PendingOk : List (BreakpointInfo V) → ℕ → Type 0
  PendingOk objects r = r < length objects

  -- Every key stands for an object with its line and its id, no line is left without entries, no
  -- key and no line occurs twice, and what is pending exists.
  pub record IsWellFormed (s : State V) : Type 0 where
    pub lines : All (LineOk s.objects) s.table
    pub distinct : Distinct s.table
    pub waiting : All (PendingOk s.objects) s.pending

  -- The objects of `os` are in `os'`, each with its line and its id.
  abbrev pub Keeps : List (BreakpointInfo V) → List (BreakpointInfo V) → Type 0
  Keeps os os' =
      (line id r : ℕ) → Describes line id (get_elem? os r) → Describes line id (get_elem? os' r)

  pub Keeps-modify :
      (f : BreakpointInfo V → BreakpointInfo V) (q : ℕ) (os : List (BreakpointInfo V))
      → ((bp : BreakpointInfo V)
          → get_elem? os q ≡ some bp
          → ((f bp).lineno ≡ bp.lineno) × ((f bp).breakpoint_id ≡ bp.breakpoint_id))
      → Keeps os (modify f q os)
  unfolding modify
  Keeps-modify f q [] same line id r d = d
  Keeps-modify f zero (o ∷ os) same line id zero d = ((same o refl).0 ∙ d.0, (same o refl).1 ∙ d.1)
  Keeps-modify f zero (o ∷ os) same line id (suc r) d = d
  Keeps-modify f (suc q) (o ∷ os) same line id zero d = d
  Keeps-modify f (suc q) (o ∷ os) same line id (suc r) d = Keeps-modify f q os same line id r d

  pub Keeps-append : (os more : List (BreakpointInfo V)) → Keeps os (os ++ more)
  Keeps-append [] more line id r d = absurd d
  Keeps-append (o ∷ os) more line id zero d = d
  Keeps-append (o ∷ os) more line id (suc r) d = Keeps-append os more line id r d

  LineOk-Keeps :
      (os os' : List (BreakpointInfo V)) (k : Keeps os os') (entry : ℕ × Line)
      → LineOk os entry
      → LineOk os' entry
  LineOk-Keeps os os' k (line, d) (entries, full, distinct) =
      (All-map d (λ e. entry-Keeps e) entries, full, distinct)
    where
      entry-Keeps : (e : Key × ℕ) → EntryOk os line e → EntryOk os' line e
      entry-Keeps ((file, id), r) p = k line id r p

  pub lines-Keeps :
      (os os' : List (BreakpointInfo V)) (t : Dict ℕ Line)
      → Keeps os os'
      → All (LineOk os) t
      → All (LineOk os') t
  lines-Keeps os os' t k h = All-map t (LineOk-Keeps os os' k) h

  insert-LineOk :
      (os : List (BreakpointInfo V)) (line id r : ℕ) (file : Text) (d : Line)
      → Describes line id (get_elem? os r)
      → All (EntryOk os line) d × Distinct d
      → LineOk os (line, insert (file, id) r d)
  insert-LineOk os line id r file d p (entries, distinct) = (
    All-insert (EntryOk os line) (file, id) r d entries p,
    insert-ne-nil (file, id) r d,
    insert-Distinct (file, id) r d distinct,
  )

  or_empty-LineOk :
      (os : List (BreakpointInfo V)) (line : ℕ) (t : Dict ℕ Line)
      → All (LineOk os) t
      → All (EntryOk os line) (or_empty (lookup line t)) × Distinct (or_empty (lookup line t))
  or_empty-LineOk os line t h = elim (Option-cases (lookup line t)) [
    | inl new ↦ rw new (tt, tt)
    | inr (old, e) ↦ let p = All-lookup (LineOk os) line t h e in rw e (p.0, p.2)
  ]

  -- The lines after an object is entered under its own line and id.
  pub add_at-LineOk :
      (os : List (BreakpointInfo V)) (bp : BreakpointInfo V) (r : ℕ) (t : Dict ℕ Line)
      → Describes bp.lineno bp.breakpoint_id (get_elem? os r)
      → All (LineOk os) t
      → All (LineOk os) (add_at bp r t)
  add_at-LineOk os bp r t d h = All-insert (LineOk os) bp.lineno _ t h (
      insert-LineOk os bp.lineno bp.breakpoint_id r bp.filename (or_empty (lookup bp.lineno t)) d
        (or_empty-LineOk os bp.lineno t h))

  remove_first-entries :
      (os : List (BreakpointInfo V)) (line id : ℕ) (d : Line)
      → All (EntryOk os line) d
      → All (EntryOk os line) (remove_first id d)
  unfolding remove_first
  remove_first-entries os line id [] h = tt
  remove_first-entries os line id (((file, i), r) ∷ d) h = elim (Bool-cases (i == id)) [
    | inl here ↦ rw here h.1
    | inr later ↦ rw later (h.0, remove_first-entries os line id d h.1)
  ]

  pub remove_at-LineOk :
      (os : List (BreakpointInfo V)) (line id : ℕ) (t : Dict ℕ Line)
      → All (LineOk os) t
      → Distinct t
      → All (LineOk os) (remove_at line id (lookup line t) t)
        × Distinct (remove_at line id (lookup line t) t)
  remove_at-LineOk os line id t h u = elim (Option-cases (lookup line t)) [
    | inl absent ↦ rw absent (h, u)
    | inr (d, e) ↦ rw e (
        found d (find_in_line id d) (is_nil (remove_first id d)) refl
          (All-lookup (LineOk os) line t h e))
  ]
    where
      found :
          (d : Line) (o : Option ℕ) (b : Bool)
          → is_nil (remove_first id d) ≡ b
          → LineOk os (line, d)
          → All (LineOk os) (remove_found line id d o t) × Distinct (remove_found line id d o t)
      found d none b q l = (h, u)
      found d (some r) true q l = rw q (All-remove (LineOk os) line t h, remove-Distinct line t u)
      found d (some r) false q l = rw q (
        All-insert (LineOk os) line (remove_first id d) t h (
          remove_first-entries os line id d l.0,
          ground (arith, q),
          remove_first-Distinct id d l.2,
        ),
        insert-Distinct line (remove_first id d) t u,
      )

  pub insert-lines-Distinct :
      (bp : BreakpointInfo V) (r : ℕ) (t : Dict ℕ Line) → Distinct t → Distinct (add_at bp r t)
  insert-lines-Distinct bp r t u = insert-Distinct bp.lineno _ t u
