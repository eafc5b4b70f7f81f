-- ===== src/Debugger/Breakpoints/Actions.antt =====
-- Every command of the client and every event of the program keeps the dictionary well formed.
use mathlib.Core.Path.{subst}
use python_vscode.Prelude.{
  ℕ, ◌<◌, ◌≡◌, refl, ◌∙◌, Bool, true, false, Option, none, some, List, [], ◌∷◌, ◌++◌, Text, arith,
  length, length-append, get_elem?, All, Bool-cases, Option-cases, inl, inr, if◌then◌else◌, nat_eq,
}
use python_vscode.Prelude.Dict.{lookup}
use python_vscode.Debugger.PathMatch.{FileSystem}
use python_vscode.Debugger.Check.{BreakpointInfo, Host, check}
use python_vscode.Debugger.Breakpoints.{
  Key, Line, State, Names, Module, empty, find_by_id, bind_to, send, module_load,
  try_bind_break_point, command_set_breakpoint, change_found, command_set_breakpoint_condition,
  command_set_breakpoint_pass_count, command_set_breakpoint_hit_count,
  command_get_breakpoint_hit_count, command_remove_breakpoint,
}
use python_vscode.Debugger.Breakpoints.Events.{
  try_bind_at, bind_pending, Hit, new_module, load_module, names_file, visit, scan, line_event,
}
use python_vscode.Debugger.Breakpoints.Table.{
  Describes, PendingOk, IsWellFormed, Keeps-append, lines-Keeps, remove_at-LineOk,
}
use python_vscode.Debugger.Breakpoints.WellFormed.{
  length-modify, pending-le, modify-IsWellFormed, send-IsWellFormed, try_bind-IsWellFormed,
  bind_or_wait-IsWellFormed,
}

-- What reaches the dictionary: the client's commands, the call of a module and a line event.
pub data Action (V : Type 0) : Type 0 where
  set_breakpoint : BreakpointInfo V → Action V
  set_condition : ℕ → ℕ → Text → Action V
  set_pass_count : ℕ → ℕ → ℕ → Action V
  set_hit_count get_hit_count remove_breakpoint : ℕ → ℕ → Action V
  call_module : Bool → Text → Action V
  line : FileSystem → Host V → Text → ℕ → Action V

module _ {V : Type 0} where
  unfoldable pub apply : Names → Action V → State V → State V
  apply n (set_breakpoint bp) s = command_set_breakpoint n bp s
  apply n (set_condition id kind text) s = command_set_breakpoint_condition id kind text s
  apply n (set_pass_count id kind count) s = command_set_breakpoint_pass_count id kind count s
  apply n (set_hit_count id count) s = command_set_breakpoint_hit_count id count s
  apply n (get_hit_count req id) s = command_get_breakpoint_hit_count req id s
  apply n (remove_breakpoint lineno id) s = command_remove_breakpoint lineno id s
  apply n (call_module detached file) s = load_module n detached file s
  apply n (line fs h file lineno) s = (line_event fs h file lineno s).1

  change_found-IsWellFormed :
      (f : BreakpointInfo V → BreakpointInfo V)
      → ((bp : BreakpointInfo V)
          → ((f bp).lineno ≡ bp.lineno) × ((f bp).breakpoint_id ≡ bp.breakpoint_id))
      → (o : Option ℕ) (s : State V) → IsWellFormed s
      → IsWellFormed (change_found f o s)
  change_found-IsWellFormed f same none s w = w
  change_found-IsWellFormed f same (some r) s w = modify-IsWellFormed f r s (λ bp _. same bp) w

  -- The new object is described by its own line and id.
  Describes-last :
      (os : List (BreakpointInfo V)) (bp : BreakpointInfo V)
      → Describes bp.lineno bp.breakpoint_id (get_elem? (os ++ bp ∷ []) (length os))
  Describes-last [] bp = (refl, refl)
  Describes-last (o ∷ os) bp = Describes-last os bp

  new_object-IsWellFormed :
      (bp : BreakpointInfo V) (s : State V)
      → IsWellFormed s
      → IsWellFormed (record s { objects = s.objects ++ bp ∷ [] })
  new_object-IsWellFormed bp s w = record {
    lines =
        lines-Keeps s.objects (s.objects ++ bp ∷ []) s.table (Keeps-append s.objects (bp ∷ []))
          w.lines;
    distinct = w.distinct;
    waiting =
        pending-le s.objects (s.objects ++ bp ∷ []) s.pending
          (omega (arith, length-append s.objects (bp ∷ []))) w.waiting;
  }

  set_breakpoint-IsWellFormed :
      (n : Names) (bp : BreakpointInfo V) (s : State V)
      → IsWellFormed s
      → IsWellFormed (command_set_breakpoint n bp s)
  unfolding command_set_breakpoint
  set_breakpoint-IsWellFormed n bp s w =
      bind_or_wait-IsWellFormed n s.modules bp (length s.objects)
        (record s { objects = s.objects ++ bp ∷ [] }) (Describes-last s.objects bp)
        (omega (arith, length-append s.objects (bp ∷ []))) (new_object-IsWellFormed bp s w)

  remove_breakpoint-IsWellFormed :
      (lineno id : ℕ) (s : State V)
      → IsWellFormed s
      → IsWellFormed (command_remove_breakpoint lineno id s)
  unfolding command_remove_breakpoint
  remove_breakpoint-IsWellFormed lineno id s w =
      let (l, u) = remove_at-LineOk s.objects lineno id s.table w.lines w.distinct in
      record { lines = l; distinct = u; waiting = w.waiting }

  Describes-some :
      (o : Option (BreakpointInfo V)) (bp : BreakpointInfo V)
      → o ≡ some bp
      → Describes bp.lineno bp.breakpoint_id o
  Describes-some none bp e = cc
  Describes-some (some x) bp e = ground arith

  try_bind_at-IsWellFormed :
      (n : Names) (file : Text) (m : Module) (r : ℕ) (s : State V)
      → IsWellFormed s
      → IsWellFormed (try_bind_at n file m r (get_elem? s.objects r) s).1
  try_bind_at-IsWellFormed n file m r s w = elim (Option-cases (get_elem? s.objects r)) [
    | inl gone ↦ rw gone w
    | inr (bp, e) ↦
        rw e (try_bind-IsWellFormed n file m bp r s (Describes-some (get_elem? s.objects r) bp e) w)
  ]

  length-try_bind_at :
      (n : Names) (file : Text) (m : Module) (r : ℕ) (o : Option (BreakpointInfo V)) (s : State V)
      → length (try_bind_at n file m r o s).1.objects ≡ length s.objects
  unfolding try_bind_break_point
  length-try_bind_at n file m r none s = refl
  length-try_bind_at n file m r (some bp) s =
      ground (arith, length-modify (bind_to file) r s.objects)

  keep-PendingOk :
      (os : List (BreakpointInfo V)) (bound : Bool) (r : ℕ) (left : List ℕ)
      → r < length os
      → All (PendingOk os) left
      → All (PendingOk os) (if bound then left else r ∷ left)
  keep-PendingOk os true r left l h = h
  keep-PendingOk os false r left l h = (l, h)

  -- Those that stay pending exist, also after the others were bound.
  bind_pending-IsWellFormed :
      (n : Names) (file : Text) (m : Module) (rs : List ℕ) (s : State V)
      → All (PendingOk s.objects) rs
      → IsWellFormed s
      → IsWellFormed (bind_pending n file m rs s).1
        × All (PendingOk (bind_pending n file m rs s).1.objects) (bind_pending n file m rs s).0
        × (length (bind_pending n file m rs s).1.objects ≡ length s.objects)
  unfolding bind_pending
  bind_pending-IsWellFormed n file m [] s p w = (w, tt, refl)
  bind_pending-IsWellFormed n file m (r ∷ rs) s p w =
      let (bound, s') = try_bind_at n file m r (get_elem? s.objects r) s in
      let same = length-try_bind_at n file m r (get_elem? s.objects r) s in
      let (w', q, e) =
        bind_pending-IsWellFormed n file m rs s'
          (pending-le s.objects s'.objects rs (omega (arith, same)) p.1)
          (try_bind_at-IsWellFormed n file m r s w) in
      (
        w',
        keep-PendingOk (bind_pending n file m rs s').1.objects bound r _
            (omega (arith, e, same, p.0)) q,
        e ∙ same,
      )

  load_module-IsWellFormed :
      (n : Names) (detached : Bool) (file : Text) (s : State V)
      → IsWellFormed s
      → IsWellFormed (load_module n detached file s)
  unfolding load_module
  load_module-IsWellFormed n true file s w = record {
    lines = w.lines;
    distinct = w.distinct;
    waiting = w.waiting;
  }
  load_module-IsWellFormed n false file s w =
      let (m, s') = new_module n file s in
      let s'' : State V = send (module_load m.module_id m.filename) s' in
      let (w', q, e) =
        bind_pending-IsWellFormed n file m s.pending s'' w.waiting
          (record { lines = w.lines; distinct = w.distinct; waiting = w.waiting }) in
      record { lines = w'.lines; distinct = w'.distinct; waiting = q }

  check-SameKey :
      (h : Host V) (bp : BreakpointInfo V)
      → ((check h bp).1.lineno ≡ bp.lineno) × ((check h bp).1.breakpoint_id ≡ bp.breakpoint_id)
  unfolding check
  check-SameKey h bp = ground arith

  visit-IsWellFormed :
      (fs : FileSystem) (h : Host V) (file : Text) (key : Key) (r : ℕ) (hit : Option ℕ)
      (s : State V)
      → IsWellFormed s
      → IsWellFormed (visit fs h file key r (get_elem? s.objects r) hit s).1
  unfolding visit
  visit-IsWellFormed fs h file (name, id) r hit s w = elim (Option-cases (get_elem? s.objects r)) [
    | inl gone ↦ rw gone w
    | inr (bp, e) ↦ elim (Bool-cases (names_file fs file name bp.is_bound s.path_cache).0) [
      | inl here ↦
          rw (e, here)
            (modify-IsWellFormed (λ _. (check h bp).1) r
              (record s { path_cache = (names_file fs file name bp.is_bound s.path_cache).1 })
              (λ bp' e'.
                subst
                  (λ b.
                    ((check h bp).1.lineno ≡ b.lineno)
                    × ((check h bp).1.breakpoint_id ≡ b.breakpoint_id))
                  (let q : bp ≡ bp' = cc in q) (check-SameKey h bp))
              (record { lines = w.lines; distinct = w.distinct; waiting = w.waiting }))
      | inr other ↦
          rw (e, other) (record { lines = w.lines; distinct = w.distinct; waiting = w.waiting })
    ]
  ]

  scan-IsWellFormed :
      (fs : FileSystem) (h : Host V) (file : Text) (d : Line) (hit : Option ℕ) (s : State V)
      → IsWellFormed s
      → IsWellFormed (scan fs h file d hit s).1
  unfolding scan
  scan-IsWellFormed fs h file [] hit s w = w
  scan-IsWellFormed fs h file ((key, r) ∷ d) hit s w =
      go (visit fs h file key r (get_elem? s.objects r) hit s).0
        (λ hit'. scan-IsWellFormed fs h file d hit' s' (visit-IsWellFormed fs h file key r hit s w))
    where
      s' : State V
      s' = (visit fs h file key r (get_elem? s.objects r) hit s).1

      go :
          (result : Hit)
          → ((hit' : Option ℕ) → IsWellFormed (scan fs h file d hit' s').1)
          → IsWellFormed
              (elim result as (λ _. Hit × State V) [
                | none ↦ (none, s')
                | some hit' ↦ scan fs h file d hit' s'
              ]).1
      go none rest = visit-IsWellFormed fs h file key r hit s w
      go (some hit') rest = rest hit'

  line_event-IsWellFormed :
      (fs : FileSystem) (h : Host V) (file : Text) (lineno : ℕ) (s : State V)
      → IsWellFormed s
      → IsWellFormed (line_event fs h file lineno s).1
  unfolding line_event
  line_event-IsWellFormed fs h file lineno s w = elim (Option-cases (lookup lineno s.table)) [
    | inl absent ↦ rw absent w
    | inr (d, e) ↦ rw e (scan-IsWellFormed fs h file d none s w)
  ]

  -- Every command and every event keeps the dictionary well formed.
  pub apply-IsWellFormed :
      (n : Names) (a : Action V) (s : State V) → IsWellFormed s → IsWellFormed (apply n a s)
  unfolding apply
  apply-IsWellFormed n (set_breakpoint bp) s w = set_breakpoint-IsWellFormed n bp s w
  apply-IsWellFormed n (set_condition id kind text) s w =
      unfold command_set_breakpoint_condition in
      change_found-IsWellFormed _ (λ bp. (refl, refl)) (find_by_id id s.table) s w
  apply-IsWellFormed n (set_pass_count id kind count) s w =
      unfold command_set_breakpoint_pass_count in
      change_found-IsWellFormed _ (λ bp. (refl, refl)) (find_by_id id s.table) s w
  apply-IsWellFormed n (set_hit_count id count) s w =
      unfold command_set_breakpoint_hit_count in
      change_found-IsWellFormed _ (λ bp. (refl, refl)) (find_by_id id s.table) s w
  apply-IsWellFormed n (get_hit_count req id) s w =
      unfold command_get_breakpoint_hit_count in send-IsWellFormed _ s w
  apply-IsWellFormed n (remove_breakpoint lineno id) s w =
      remove_breakpoint-IsWellFormed lineno id s w
  apply-IsWellFormed n (call_module detached file) s w =
      load_module-IsWellFormed n detached file s w
  apply-IsWellFormed n (line fs h file lineno) s w = line_event-IsWellFormed fs h file lineno s w

  unfoldable pub run : Names → List (Action V) → State V → State V
  unfolding apply
  run n [] s = s
  run n (a ∷ as') s = run n as' (apply n a s)

  run-IsWellFormed :
      (n : Names) (as' : List (Action V)) (s : State V)
      → IsWellFormed s
      → IsWellFormed (run n as' s)
  unfolding run
  run-IsWellFormed n [] s w = w
  run-IsWellFormed n (a ∷ as') s w =
      run-IsWellFormed n as' (apply n a s) (apply-IsWellFormed n a s w)

  -- After any commands and events from an empty dictionary, every key stands for an object with the
  -- key's id and its line's number, no line is left without entries, no line and no key occurs
  -- twice, and every pending breakpoint exists.
  pub run-empty-IsWellFormed : (n : Names) (as' : List (Action V)) → IsWellFormed (run n as' empty)
  run-empty-IsWellFormed n as' =
      run-IsWellFormed n as' empty
        (unfold empty in record { lines = tt; distinct = tt; waiting = tt })
