-- ===== src/Debugger/Breakpoints/Stale.antt =====
-- Breakpoints that `command_remove_breakpoint` does not get rid of.
use python_vscode.Prelude.{
  ℕ, zero, suc, ◌<◌, ◌≡◌, refl, ◌∙◌, true, false, Option, none, some, List, [], ◌∷◌, ◌++◌, Text,
  arith, same, ==_iff, nat_eq, text_eq, pair_eq, Eq, ◌==◌, All, length, get_elem?, Bool-cases, inl,
  inr,
}
use python_vscode.Prelude.Dict.{Dict, lookup, insert, remove, lookup-insert}
use python_vscode.Debugger.Check.{BreakpointInfo}
use python_vscode.Debugger.Breakpoints.{
  State, Line, Names, Module, empty, or_empty, modify, send, breakpoint_failed, bind_to,
  add_break_point, try_bind_break_point, bind_or_wait, names_module, find_by_id,
  command_set_breakpoint, command_remove_breakpoint,
}
use python_vscode.Debugger.Breakpoints.Events.{try_bind_at, bind_pending, new_module, load_module}
use python_vscode.Debugger.Breakpoints.Table.{IsWellFormed}

-- The module that `load_module` makes first.
abbrev pub first_module : Names → Text → Module
first_module n code_filename = record { module_id = 0; filename = n.abspath code_filename }

eq_refl : (a : ℕ) → (a == a) ≡ true
eq_refl a = ground arith

lookup_inserted {ℓ κ} :
    {K : Type ℓ} {V : Type κ} ⦃e : Eq K⦄ (k : K) (v : V) (d : Dict K V)
    → lookup k (insert k v d) ≡ some v
lookup_inserted ⦃e⦄ k v d = rw (lookup-insert k k v d, (e.beq_iff k k).1 refl) refl

module _ {V : Type 0} where
  -- A change of one object leaves the others.
  get_elem?-modify :
      (f : BreakpointInfo V → BreakpointInfo V) (q r : ℕ) (os : List (BreakpointInfo V))
      → q < r
      → get_elem? (modify f q os) r ≡ get_elem? os r
  unfolding modify
  get_elem?-modify f q r [] l = refl
  get_elem?-modify f zero zero (o ∷ os) l = absurd (omega (arith, l))
  get_elem?-modify f zero (suc r) (o ∷ os) l = refl
  get_elem?-modify f (suc q) zero (o ∷ os) l = absurd (omega (arith, l))
  get_elem?-modify f (suc q) (suc r) (o ∷ os) l = get_elem?-modify f q r os (omega (arith, l))

  get_elem?-last :
      (os : List (BreakpointInfo V)) (bp : BreakpointInfo V)
      → get_elem? (os ++ bp ∷ []) (length os) ≡ some bp
  get_elem?-last [] bp = refl
  get_elem?-last (o ∷ os) bp = get_elem?-last os bp

  -- The breakpoint has an entry on its line, under the name of the module.
  abbrev pub HasEntry : Text → BreakpointInfo V → ℕ → State V → Type 0
  HasEntry code_filename bp r s =
      lookup (code_filename, bp.breakpoint_id) (or_empty (lookup bp.lineno s.table)) ≡ some r

  module _ (n : Names) (m : Module) (code_filename : Text) where
    try_bind-get_elem? :
        (q r : ℕ) (o : Option (BreakpointInfo V)) (s : State V)
        → q < r
        → get_elem? (try_bind_at n code_filename m q o s).1.objects r ≡ get_elem? s.objects r
    unfolding try_bind_break_point add_break_point
    try_bind-get_elem? q r none s l = refl
    try_bind-get_elem? q r (some bp) s l = elim (Bool-cases (names_module n m bp)) [
      | inl e ↦ rw e (get_elem?-modify (bind_to code_filename) q r s.objects l)
      | inr e ↦ rw e refl
    ]

    bound-HasEntry :
        (bp : BreakpointInfo V) (r : ℕ) (s : State V)
        → names_module n m bp ≡ true
        → HasEntry code_filename bp r (try_bind_break_point n code_filename m bp r s).1
    unfolding try_bind_break_point add_break_point
    bound-HasEntry bp r s e =
        let d : Line = or_empty (lookup bp.lineno s.table) in
        rw
          (
            e,
            lookup_inserted bp.lineno (insert (code_filename, bp.breakpoint_id) r d) s.table,
            lookup_inserted (code_filename, bp.breakpoint_id) r d,
          )
          refl

    -- The load binds the last of the pending breakpoints, whatever it does with those before it.
    bind_pending-HasEntry :
        (bp : BreakpointInfo V) (r : ℕ) (rs : List ℕ) (s : State V)
        → names_module n m bp ≡ true
        → All (λ q. q < r) rs
        → get_elem? s.objects r ≡ some bp
        → HasEntry code_filename bp r (bind_pending n code_filename m (rs ++ r ∷ []) s).1
    unfolding bind_pending
    bind_pending-HasEntry bp r [] s e h g = rw g (bound-HasEntry bp r s e)
    bind_pending-HasEntry bp r (q ∷ rs) s e h g =
        let o : Option (BreakpointInfo V) = get_elem? s.objects q in
        bind_pending-HasEntry bp r rs (try_bind_at n code_filename m q o s).1 e h.1
          (try_bind-get_elem? q r o s h.0 ∙ g)

  -- A breakpoint that no module names waits.
  waits :
      (n : Names) (bp : BreakpointInfo V) (r : ℕ) (modules : List (Text × Module)) (s : State V)
      → All (λ m. names_module n m.1 bp ≡ false) modules
      → bind_or_wait n modules bp r s
        ≡ send
            (breakpoint_failed bp.breakpoint_id)
            (record (add_break_point bp r s) { pending = s.pending ++ r ∷ [] })
  unfolding bind_or_wait try_bind_break_point
  waits n bp r [] s h = refl
  waits n bp r (m ∷ modules) s h = rw (h.0) (waits n bp r modules s h.1)

  -- A breakpoint that is set while no module that is loaded is its own, and then removed, is still pending:
  -- in any well-formed state, the load of its module binds it, and it is in the dictionary again.
  pub removed-is_revived :
      (n : Names) (bp : BreakpointInfo V) (code_filename : Text) (s : State V)
      → IsWellFormed s
      → All (λ m. names_module n m.1 bp ≡ false) s.modules
      → names_module n (first_module n code_filename) bp ≡ true
      → HasEntry code_filename bp (length s.objects) (
          load_module n false code_filename
            (command_remove_breakpoint bp.lineno bp.breakpoint_id (command_set_breakpoint n bp s)))
  unfolding load_module new_module command_remove_breakpoint command_set_breakpoint add_break_point
  removed-is_revived n bp code_filename s w h e =
      rw (waits n bp (length s.objects) s.modules (record s { objects = s.objects ++ bp ∷ [] }) h) (
        bind_pending-HasEntry n (first_module n code_filename) code_filename bp (length s.objects)
          s.pending _ e w.waiting (get_elem?-last s.objects bp))

  -- A breakpoint that is set before its module is loaded gets a second key when the module's file
  -- is spelled otherwise; its removal takes away the first key alone, and it stays in the dictionary.
  pub removed-is_left :
      (n : Names) (bp : BreakpointInfo V) (code_filename : Text)
      → names_module n (first_module n code_filename) bp ≡ true
      → same bp.filename code_filename ≡ false
      → find_by_id bp.breakpoint_id
          (command_remove_breakpoint bp.lineno bp.breakpoint_id
            (load_module n false code_filename (command_set_breakpoint n bp empty))).table
        ≡ some 0
  unfolding find_by_id load_module command_remove_breakpoint command_set_breakpoint empty lookup
      insert remove
  removed-is_left n bp code_filename h d =
      ground (arith, ==_iff bp.lineno bp.lineno, ==_iff bp.breakpoint_id bp.breakpoint_id)
