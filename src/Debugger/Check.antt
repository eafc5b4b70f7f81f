-- ===== src/Debugger/Check.antt =====
-- One breakpoint at one line event: the condition and the pass count of `Thread.handle_line`.
-- Counts and kinds are taken to be non-negative, as the client sends them.
pub mod Visits
use python_vscode.Prelude.{
  ℕ, zero, suc, ◌+◌, ◌%◌, Bool, true, false, not, Option, none, some, Text, ltb, ◌==◌,
  if◌then◌else◌,
}

-- `BreakpointInfo`. No `last_condition_value` is `_DUMMY_LAST_VALUE`, which equals no value.
pub record BreakpointInfo (V : Type 0) : Type 0 where
  pub breakpoint_id : ℕ
  pub filename : Text
  pub lineno : ℕ
  pub condition_kind : ℕ
  pub condition : Text
  pub pass_count_kind : ℕ
  pub pass_count : ℕ
  pub is_bound : Bool
  pub last_condition_value : Option V
  pub hit_count : ℕ

abbrev pub condition_always : ℕ
condition_always = 0

abbrev pub condition_when_changed : ℕ
condition_when_changed = 2

abbrev pub pass_count_always : ℕ
pass_count_always = 0

abbrev pub pass_count_every : ℕ
pass_count_every = 1

abbrev pub pass_count_when_equal : ℕ
pass_count_when_equal = 2

abbrev pub pass_count_when_equal_or_greater : ℕ
pass_count_when_equal_or_greater = 3

-- What the running program answers: `eval` of a condition in the frame at hand, `==` between two
-- values and the truth of a value. Each may raise, which is `none`.
pub record Host (V : Type 0) : Type 0 where
  pub evaluate : Text → Option V
  pub equal : V → V → Option Bool
  pub truth : V → Option Bool

-- `none` is the ZeroDivisionError of `hit_count % pass_count`.
unfoldable pub check_pass_count : ℕ → ℕ → ℕ → Option Bool
check_pass_count kind pass hits =
    if kind == pass_count_every
    then (if pass == 0 then none else some (hits % pass == 0))
    else if kind == pass_count_when_equal
    then some (hits == pass)
    else if kind == pass_count_when_equal_or_greater
    then some (not (ltb hits pass))
    else some true

module _ {V : Type 0} where
  unfoldable pub new_breakpoint : ℕ → Text → ℕ → ℕ → Text → ℕ → ℕ → BreakpointInfo V
  new_breakpoint id file line kind text pass_kind pass = record {
    breakpoint_id = id;
    filename = file;
    lineno = line;
    condition_kind = kind;
    condition = text;
    pass_count_kind = pass_kind;
    pass_count = pass;
    is_bound = false;
    last_condition_value = none;
    hit_count = 0;
  }

  -- A raise in a comparison counts as a difference.
  abbrev pub changed : Host V → Option V → V → Bool
  changed h none new = true
  changed h (some old) new = elim (h.equal old new) [
    | some true ↦ false
    | some false ↦ true
    | none ↦ true
  ]

  abbrev is_true : Host V → V → Bool
  is_true h v = elim (h.truth v) [ some b ↦ b | none ↦ true ]

  -- Does the condition hold, and the breakpoint after the test; an error in the evaluation is a hit.
  after_evaluate : Host V → BreakpointInfo V → Option V → Bool × BreakpointInfo V
  after_evaluate h bp none = (true, bp)
  after_evaluate h bp (some res) =
      if bp.condition_kind == condition_when_changed
      then (changed h bp.last_condition_value res, record bp { last_condition_value = some res })
      else (is_true h res, bp)

  unfoldable pub check_condition : Host V → BreakpointInfo V → Bool × BreakpointInfo V
  unfolding after_evaluate
  check_condition h bp =
      if bp.condition_kind == condition_always
      then (true, bp)
      else after_evaluate h bp (h.evaluate bp.condition)

  count_hit : Bool × BreakpointInfo V → Option Bool × BreakpointInfo V
  unfolding check_pass_count
  count_hit (false, bp) = (some false, bp)
  count_hit (true, bp) = (
    check_pass_count bp.pass_count_kind bp.pass_count (bp.hit_count + 1),
    record bp { hit_count = bp.hit_count + 1 },
  )

  -- The body of the loop over the breakpoints of a line, behind the test of the file name.
  unfoldable pub check : Host V → BreakpointInfo V → Option Bool × BreakpointInfo V
  unfolding check_condition count_hit
  check h bp = count_hit (check_condition h bp)
