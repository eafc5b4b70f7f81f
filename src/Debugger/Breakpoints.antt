-- ===== src/Debugger/Breakpoints.antt =====
-- BREAKPOINTS, PENDING_BREAKPOINTS and MODULES, and the commands and events that change them.
-- BreakpointInfo objects are shared between the dictionary and the pending set, so they live in a
-- store, `objects`, and are named by their place in it. Dictionaries are in insertion order; the
-- pending set is in the order in which it was filled.
pub mod Events
pub mod Table
pub mod WellFormed
pub mod Actions
pub mod Stale
pub mod Counts
use python_vscode.Prelude.{
  ℕ, zero, suc, ◌+◌, Bool, true, false, not, Option, none, some, List, [], ◌∷◌, ◌++◌, Text, same,
  ◌==◌, text_eq, nat_eq, pair_eq, if◌then◌else◌, length, get_elem?,
}
use python_vscode.Prelude.Dict.{Dict, lookup, insert, remove}
use python_vscode.Debugger.PathMatch.{FileSystem, PathCache, breakpoint_path_match}
use python_vscode.Debugger.Check.{BreakpointInfo, Host, new_breakpoint, check}

-- What is sent to the client.
pub data Message : Type 0 where
  breakpoint_bound breakpoint_failed : ℕ → Message
  hit_count_reply : ℕ → ℕ → Message
  module_load : ℕ → Text → Message

pub record Module : Type 0 where
  pub module_id : ℕ
  pub filename : Text

-- The keys of the dictionary of a line.
abbrev pub Key : Type 0
Key = Text × ℕ

abbrev pub Line : Type 0
Line = Dict Key ℕ

pub record State (V : Type 0) : Type 0 where
  pub objects : List (BreakpointInfo V)
  pub table : Dict ℕ Line
  pub pending : List ℕ
  pub modules : List (Text × Module)
  pub path_cache : PathCache
  pub sent : List Message

-- `path.abspath` and `str.lower`
pub record Names : Type 0 where
  pub abspath : Text → Text
  pub lower : Text → Text

abbrev pub or_empty : Option Line → Line
or_empty none = []
or_empty (some d) = d

-- Changes the object `r` in place.
unfoldable pub modify {ℓ} : {A : Type ℓ} → (A → A) → ℕ → List A → List A
modify f r [] = []
modify f zero (x ∷ xs) = f x ∷ xs
modify f (suc r) (x ∷ xs) = x ∷ modify f r xs

-- The first entry of a line with an id, and the first line that has one.
unfoldable pub find_in_line : ℕ → Line → Option ℕ
find_in_line id [] = none
find_in_line id (((file, bp_id), r) ∷ d) = if bp_id == id then some r else find_in_line id d

abbrev pub or_else : Option ℕ → Option ℕ → Option ℕ
or_else (some r) other = some r
or_else none other = other

unfoldable pub find_by_id : ℕ → Dict ℕ Line → Option ℕ
unfolding find_in_line
find_by_id id [] = none
find_by_id id ((line, d) ∷ t) = or_else (find_in_line id d) (find_by_id id t)

-- `for file, id in cur_bp: if id == brkpt_id: del cur_bp[file, id] … break`
unfoldable pub remove_first : ℕ → Line → Line
remove_first id [] = []
remove_first id (((file, bp_id), r) ∷ d) =
    if bp_id == id then d else ((file, bp_id), r) ∷ remove_first id d

abbrev pub is_nil {ℓ} : {A : Type ℓ} → List A → Bool
is_nil [] = true
is_nil (x ∷ xs) = false

abbrev pub remove_found : ℕ → ℕ → Line → Option ℕ → Dict ℕ Line → Dict ℕ Line
remove_found line id d none t = t
remove_found line id d (some r) t =
    let d' = remove_first id d in if is_nil d' then remove line t else insert line d' t

abbrev pub remove_at : ℕ → ℕ → Option Line → Dict ℕ Line → Dict ℕ Line
remove_at line id none t = t
remove_at line id (some d) t = remove_found line id d (find_in_line id d) t

module _ {V : Type 0} where
  unfoldable pub empty : State V
  empty = record {
    objects = [];
    table = [];
    pending = [];
    modules = [];
    path_cache = [];
    sent = [];
  }

  abbrev pub send : Message → State V → State V
  send m s = record s { sent = s.sent ++ m ∷ [] }

  abbrev pub add_at : BreakpointInfo V → ℕ → Dict ℕ Line → Dict ℕ Line
  add_at bp r t =
      insert bp.lineno (insert (bp.filename, bp.breakpoint_id) r (or_empty (lookup bp.lineno t))) t

  -- `add_break_point(bp)`, for the object `bp` that is at `r`
  unfoldable pub add_break_point : BreakpointInfo V → ℕ → State V → State V
  add_break_point bp r s = record s { table = add_at bp r s.table }

  abbrev pub bind_to : Text → BreakpointInfo V → BreakpointInfo V
  bind_to mod_filename bp = record bp { filename = mod_filename; is_bound = true }

  abbrev pub names_module : Names → Module → BreakpointInfo V → Bool
  names_module n m bp = same (n.lower m.filename) (n.lower (n.abspath bp.filename))

  -- `try_bind_break_point(mod_filename, module, bp)`
  unfoldable pub try_bind_break_point :
      Names → Text → Module → BreakpointInfo V → ℕ → State V → Bool × State V
  unfolding add_break_point modify
  try_bind_break_point n mod_filename m bp r s =
      if names_module n m bp
      then (
        true,
        send (breakpoint_bound bp.breakpoint_id) (
            add_break_point (bind_to mod_filename bp) r
              (record s { objects = modify (bind_to mod_filename) r s.objects })),
      )
      else (false, s)

  -- The loop of `command_set_breakpoint` over MODULES, and its `else`.
  unfoldable pub bind_or_wait :
      Names → List (Text × Module) → BreakpointInfo V → ℕ → State V → State V
  unfolding try_bind_break_point
  bind_or_wait n [] bp r s =
      send (breakpoint_failed bp.breakpoint_id)
        (record (add_break_point bp r s) { pending = s.pending ++ r ∷ [] })
  bind_or_wait n ((mod_filename, m) ∷ ms) bp r s =
      let (bound, s') = try_bind_break_point n mod_filename m bp r s in
      let rest = bind_or_wait n ms bp r s in if bound then s' else rest

  -- `command_set_breakpoint`, with the BreakpointInfo that it makes of what it reads
  unfoldable pub command_set_breakpoint : Names → BreakpointInfo V → State V → State V
  unfolding bind_or_wait
  command_set_breakpoint n bp s =
      bind_or_wait n s.modules bp (length s.objects) (record s { objects = s.objects ++ bp ∷ [] })

  abbrev pub change_found : (BreakpointInfo V → BreakpointInfo V) → Option ℕ → State V → State V
  change_found f none s = s
  change_found f (some r) s = record s { objects = modify f r s.objects }

  unfoldable pub command_set_breakpoint_condition : ℕ → ℕ → Text → State V → State V
  unfolding modify
  command_set_breakpoint_condition id kind text s =
      change_found (λ bp. record bp { condition_kind = kind; condition = text })
        (find_by_id id s.table) s

  unfoldable pub command_set_breakpoint_pass_count : ℕ → ℕ → ℕ → State V → State V
  unfolding modify
  command_set_breakpoint_pass_count id kind count s =
      change_found (λ bp. record bp { pass_count_kind = kind; pass_count = count })
        (find_by_id id s.table) s

  unfoldable pub command_set_breakpoint_hit_count : ℕ → ℕ → State V → State V
  unfolding modify
  command_set_breakpoint_hit_count id count s =
      change_found (λ bp. record bp { hit_count = count }) (find_by_id id s.table) s

  abbrev pub object_at : Option ℕ → State V → Option (BreakpointInfo V)
  object_at none s = none
  object_at (some r) s = get_elem? s.objects r

  abbrev pub hits_of : Option (BreakpointInfo V) → ℕ
  hits_of none = 0
  hits_of (some bp) = bp.hit_count

  unfoldable pub command_get_breakpoint_hit_count : ℕ → ℕ → State V → State V
  command_get_breakpoint_hit_count req id s =
      send (hit_count_reply req (hits_of (object_at (find_by_id id s.table) s))) s

  unfoldable pub command_remove_breakpoint : ℕ → ℕ → State V → State V
  unfolding remove_first find_in_line
  command_remove_breakpoint line id s = record s {
    table = remove_at line id (lookup line s.table) s.table;
  }
