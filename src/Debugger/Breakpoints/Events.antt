-- ===== src/Debugger/Breakpoints/Events.antt =====
-- What the trace function does with breakpoints: `handle_call` at the start of a module, and the
-- loop of `handle_line` over the breakpoints of a line.
use python_vscode.Prelude.{
  ℕ, Bool, true, false, Option, none, some, List, [], ◌∷◌, ◌++◌, Text, same, if◌then◌else◌, length,
  get_elem?, nat_eq,
}
use python_vscode.Prelude.Dict.{lookup}
use python_vscode.Debugger.PathMatch.{FileSystem, PathCache, breakpoint_path_match}
use python_vscode.Debugger.Check.{BreakpointInfo, Host, check}
use python_vscode.Debugger.Breakpoints.{
  State, Names, Module, Key, Line, modify, send, module_load, try_bind_break_point,
}

-- Does the file of a breakpoint's key name the file that runs?
unfoldable pub names_file : FileSystem → Text → Text → Bool → PathCache → Bool × PathCache
unfolding breakpoint_path_match
names_file fs co_filename filename is_bound cache =
    if same filename co_filename
    then (true, cache)
    else if is_bound
    then (false, cache)
    else breakpoint_path_match fs filename co_filename cache

-- What the loop has found: the id of the last breakpoint that was hit, or `none` for the
-- ZeroDivisionError that ends it.
abbrev pub Hit : Type 0
Hit = Option (Option ℕ)

abbrev pub latest : ℕ → Bool → Option ℕ → Option ℕ
latest id true hit = some id
latest id false hit = hit

module _ {V : Type 0} where
  -- `try_bind_break_point` on the object at `r`
  abbrev pub try_bind_at :
      Names → Text → Module → ℕ → Option (BreakpointInfo V) → State V → Bool × State V
  try_bind_at n code_filename m r none s = (false, s)
  try_bind_at n code_filename m r (some bp) s = try_bind_break_point n code_filename m bp r s

  -- The loop over PENDING_BREAKPOINTS: those that stay pending, and the state.
  unfoldable pub bind_pending : Names → Text → Module → List ℕ → State V → List ℕ × State V
  bind_pending n code_filename m [] s = ([], s)
  bind_pending n code_filename m (r ∷ rs) s =
      let (bound, s') = try_bind_at n code_filename m r (get_elem? s.objects r) s in
      let (left, s'') = bind_pending n code_filename m rs s' in
      (if bound then left else r ∷ left, s'')

  abbrev pub with_pending : List ℕ × State V → State V
  with_pending (left, s) = record s { pending = left }

  -- `new_module(frame)`
  unfoldable pub new_module : Names → Text → State V → Module × State V
  new_module n code_filename s =
      let m : Module = record {
        module_id = length s.modules;
        filename = n.abspath code_filename;
      } in
      (m, record s { modules = s.modules ++ (code_filename, m) ∷ [] })

  -- A call of a module's code, from `new_module(frame)` on.
  unfoldable pub load_module : Names → Bool → Text → State V → State V
  unfolding new_module bind_pending
  load_module n detached code_filename s =
      let (m, s') = new_module n code_filename s in
      if detached
      then s'
      else with_pending
          (bind_pending n code_filename m s'.pending (send (module_load m.module_id m.filename) s'))

  unfoldable pub visit :
      FileSystem
      → Host V
      → Text
      → Key
      → ℕ
      → Option (BreakpointInfo V)
      → Option ℕ
      → State V
      → Hit × State V
  unfolding names_file check modify
  visit fs h co_filename (filename, id) r none hit s = (some hit, s)
  visit fs h co_filename (filename, id) r (some bp) hit s =
      let (here, cache) = names_file fs co_filename filename bp.is_bound s.path_cache in
      let s' : State V = record s { path_cache = cache } in
      let (reported, bp') = check h bp in
      if here
      then (
        elim reported [ none ↦ none | some b ↦ some (latest id b hit) ],
        record s' { objects = modify (λ _. bp') r s.objects },
      )
      else (some hit, s')

  unfoldable pub scan : FileSystem → Host V → Text → Line → Option ℕ → State V → Hit × State V
  unfolding visit
  scan fs h co_filename [] hit s = (some hit, s)
  scan fs h co_filename ((key, r) ∷ d) hit s =
      let (result, s') = visit fs h co_filename key r (get_elem? s.objects r) hit s in
      elim result [ none ↦ (none, s') | some hit' ↦ scan fs h co_filename d hit' s' ]

  -- `bp = BREAKPOINTS.get(frame.f_lineno)` and the loop
  abbrev pub scan_line : FileSystem → Host V → Text → Option Line → State V → Hit × State V
  scan_line fs h co_filename none s = (some none, s)
  scan_line fs h co_filename (some d) s = scan fs h co_filename d none s

  unfoldable pub line_event : FileSystem → Host V → Text → ℕ → State V → Hit × State V
  unfolding scan
  line_event fs h co_filename lineno s = scan_line fs h co_filename (lookup lineno s.table) s
