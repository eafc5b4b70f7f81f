-- ===== src/Debugger/Breakpoints/WellFormed.antt =====
-- The steps that the commands and events are made of keep the dictionary well formed.
use python_vscode.Prelude.{
  ℕ, zero, suc, ◌≤◌, ◌<◌, ◌≡◌, refl, some, List, [], ◌∷◌, Text, arith, length, get_elem?, All,
  All-map, All-append, Bool-cases, inl, inr, nat_eq,
}
use python_vscode.Debugger.Check.{BreakpointInfo}
use python_vscode.Debugger.Breakpoints.{
  State, Names, Module, modify, bind_to, names_module, send, Message, add_break_point,
  try_bind_break_point, bind_or_wait,
}
use python_vscode.Debugger.Breakpoints.Table.{
  Describes, PendingOk, IsWellFormed, Keeps-modify, lines-Keeps, add_at-LineOk,
  insert-lines-Distinct,
}

pub length-modify {ℓ} :
    {A : Type ℓ} (f : A → A) (r : ℕ) (xs : List A) → length (modify f r xs) ≡ length xs
unfolding modify
length-modify f r [] = refl
length-modify f zero (x ∷ xs) = refl
length-modify f (suc r) (x ∷ xs) = omega (arith, length-modify f r xs)

module _ {V : Type 0} where
  pub pending-le :
      (os os' : List (BreakpointInfo V)) (rs : List ℕ)
      → length os ≤ length os'
      → All (PendingOk os) rs
      → All (PendingOk os') rs
  pending-le os os' rs h p = All-map rs (λ r q. omega arith) p

  -- What a change of an object may not touch.
  abbrev pub SameKey : (BreakpointInfo V → BreakpointInfo V) → ℕ → State V → Type 0
  SameKey f r s =
      (bp : BreakpointInfo V)
      → get_elem? s.objects r ≡ some bp
      → ((f bp).lineno ≡ bp.lineno) × ((f bp).breakpoint_id ≡ bp.breakpoint_id)

  pub modify-IsWellFormed :
      (f : BreakpointInfo V → BreakpointInfo V) (r : ℕ) (s : State V)
      → SameKey f r s
      → IsWellFormed s
      → IsWellFormed (record s { objects = modify f r s.objects })
  modify-IsWellFormed f r s same w = record {
    lines =
        lines-Keeps s.objects (modify f r s.objects) s.table (Keeps-modify f r s.objects same)
          w.lines;
    distinct = w.distinct;
    waiting =
        pending-le s.objects (modify f r s.objects) s.pending
          (omega (arith, length-modify f r s.objects)) w.waiting;
  }

  add_break_point-IsWellFormed :
      (bp : BreakpointInfo V) (r : ℕ) (s : State V)
      → Describes bp.lineno bp.breakpoint_id (get_elem? s.objects r)
      → IsWellFormed s
      → IsWellFormed (add_break_point bp r s)
  unfolding add_break_point
  add_break_point-IsWellFormed bp r s d w = record {
    lines = add_at-LineOk s.objects bp r s.table d w.lines;
    distinct = insert-lines-Distinct bp r s.table w.distinct;
    waiting = w.waiting;
  }

  pub send-IsWellFormed : (m : Message) (s : State V) → IsWellFormed s → IsWellFormed (send m s)
  send-IsWellFormed m s w = record { lines = w.lines; distinct = w.distinct; waiting = w.waiting }

  bind_to-IsWellFormed :
      (file : Text) (bp : BreakpointInfo V) (r : ℕ) (s : State V)
      → Describes bp.lineno bp.breakpoint_id (get_elem? s.objects r)
      → IsWellFormed s
      → IsWellFormed (
          add_break_point
            (bind_to file bp)
            r
            (record s { objects = modify (bind_to file) r s.objects }))
  bind_to-IsWellFormed file bp r s d w =
      add_break_point-IsWellFormed (bind_to file bp) r
        (record s { objects = modify (bind_to file) r s.objects })
        (Keeps-modify (bind_to file) r s.objects (λ bp' _. (refl, refl)) bp.lineno bp.breakpoint_id
          r d)
        (modify-IsWellFormed (bind_to file) r s (λ bp' _. (refl, refl)) w)

  -- Binding succeeds or leaves the state alone.
  pub try_bind-IsWellFormed :
      (n : Names) (file : Text) (m : Module) (bp : BreakpointInfo V) (r : ℕ) (s : State V)
      → Describes bp.lineno bp.breakpoint_id (get_elem? s.objects r)
      → IsWellFormed s
      → IsWellFormed (try_bind_break_point n file m bp r s).1
  unfolding try_bind_break_point
  try_bind-IsWellFormed n file m bp r s d w = elim (Bool-cases (names_module n m bp)) [
    | inl yes' ↦ rw yes' (send-IsWellFormed _ _ (bind_to-IsWellFormed file bp r s d w))
    | inr no' ↦ rw no' w
  ]

  pub bind_or_wait-IsWellFormed :
      (n : Names) (ms : List (Text × Module)) (bp : BreakpointInfo V) (r : ℕ) (s : State V)
      → Describes bp.lineno bp.breakpoint_id (get_elem? s.objects r)
      → r < length s.objects
      → IsWellFormed s
      → IsWellFormed (bind_or_wait n ms bp r s)
  unfolding bind_or_wait
  bind_or_wait-IsWellFormed n [] bp r s d l w =
      let w' = add_break_point-IsWellFormed bp r s d w in
      record {
        lines = w'.lines;
        distinct = w'.distinct;
        waiting = All-append (PendingOk s.objects) s.pending (r ∷ []) w.waiting (l, tt);
      }
  bind_or_wait-IsWellFormed n ((file, m) ∷ ms) bp r s d l w =
      elim (Bool-cases (try_bind_break_point n file m bp r s).0) [
        | inl bound ↦ rw bound (try_bind-IsWellFormed n file m bp r s d w)
        | inr free ↦ rw free (bind_or_wait-IsWellFormed n ms bp r s d l w)
      ]
