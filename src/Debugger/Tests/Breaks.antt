-- ===== src/Debugger/Tests/Breaks.antt =====
-- Two breakpoints, one in a module that is spelled otherwise than the client spells it.
use python_vscode.Prelude.{
  All, length, ℕ, ◌≡◌, refl, true, false, none, List, [], ◌∷◌, Text, arith, if◌then◌else◌, codes,
  ◌==◌, nat_eq,
}
use python_vscode.Debugger.Check.{BreakpointInfo, Host}
use python_vscode.Debugger.Check.Visits.{visits, reports, expected, frame, reports-visits}
use python_vscode.Debugger.Breakpoints.{
  State, Names, empty, names_module, command_set_breakpoint, command_remove_breakpoint,
}
use python_vscode.Debugger.Breakpoints.Events.{load_module}
use python_vscode.Debugger.Breakpoints.Table.{IsWellFormed}
use python_vscode.Debugger.Breakpoints.Actions.{
  Action, set_breakpoint, call_module, run, run-empty-IsWellFormed,
}
use python_vscode.Debugger.Breakpoints.Stale.{first_module, HasEntry, removed-is_revived}

-- Names that begin with a capital or a small letter are one file.
abbrev lower_first : Text → Text
lower_first [] = []
lower_first (c ∷ s) = (if c == 65 then 97 else c) ∷ s

abbrev names : Names
names = record { abspath = λ t. t; lower = lower_first }

abbrev one : BreakpointInfo ℕ
one = record {
  breakpoint_id = 1;
  filename = codes "A.py";
  lineno = 12;
  condition_kind = 0;
  condition = [];
  pass_count_kind = 1;
  pass_count = 2;
  is_bound = false;
  last_condition_value = none;
  hit_count = 0;
}

abbrev changing : BreakpointInfo ℕ
changing = record one { breakpoint_id = 2; condition_kind = 2; pass_count_kind = 0; pass_count = 0 }

abbrev actions : List (Action ℕ)
actions = set_breakpoint one ∷ call_module false (codes "a.py") ∷ set_breakpoint changing ∷ []

abbrev state : State ℕ
state = run names actions empty

run-empty-IsWellFormed_example : IsWellFormed state
run-empty-IsWellFormed_example = run-empty-IsWellFormed names actions

-- A breakpoint in another module, in the dictionary with the two others
abbrev third : BreakpointInfo ℕ
third = record one { breakpoint_id = 3; filename = codes "b.py"; lineno = 12 }

names_third : names_module names (first_module names (codes "b.py")) third ≡ true
names_third = refl

third_waits : All (λ m. names_module names m.1 third ≡ false) state.modules
unfolding run command_set_breakpoint load_module empty
third_waits = (refl, tt)

removed-is_revived_example : HasEntry (codes "b.py") third (length state.objects) (
    load_module names false
      (codes "b.py")
      (command_remove_breakpoint 12 3 (command_set_breakpoint names third state)))
removed-is_revived_example =
    removed-is_revived names third (codes "b.py") state (run-empty-IsWellFormed names actions)
      third_waits names_third

-- Five events in frames where nothing is asked.
abbrev five : List (Host ℕ)
five = frame 0 ∷ frame 0 ∷ frame 1 ∷ frame 1 ∷ frame 0 ∷ []

reports-visits_example : reports (visits five one) ≡ expected 1 2 5
reports-visits_example = reports-visits five one refl refl (omega arith) (omega arith)
