-- ===== src/Repl/Tests.antt =====
-- A session of the interactive window, its commands, and what is shown of values.
use python_vscode.Prelude.{
  ◌+◌, ◌++◌, ◌≤◌, Text, true, false, Option, none, some, List, [], ◌∷◌, codes, map, if◌then◌else◌,
  ◌≡◌, ◌≢◌, refl, inl, inr, arith, text_eq,
}
use python_vscode.Prelude.Texts.{is_in}
use python_vscode.Prelude.Dict.{lookup, has, insert}
use python_vscode.Wire.{Conn, done}
use python_vscode.Wire.RoundTrip.{Delivers}
use python_vscode.Wire.Reads.{args_bytes}
use python_vscode.Debugger.Reports.{Field}
use python_vscode.Repl.Messages.{send_command_executed}
use python_vscode.Repl.Main.{
  Item, code_item, script_item, attach_item, exit_item, Session, returned, system_exit, raised,
  Executor, Main, run_items, execution_loop,
}
use python_vscode.Repl.Main.Answered.{answers, answer, endings, run_items-answers}
use python_vscode.Repl.Main.Shown.{
  Window, hear, Shows, IsTidyRun, with_prompts, execution_loop-shown,
}
use python_vscode.Repl.Members.{Value, Members, names_of, collect_members, members_result}
use python_vscode.Repl.Members.Collected.{
  known, class_first, read_members, read_members-members_result, collect_members-found,
}
use python_vscode.Repl.Commands.{
  Command, run, setm, mods, excf, exit, new_backend, Inspector, handle, exit_process,
}
use python_vscode.Wire.Utf8.{encode}
use python_vscode.Wire.Bytes.{pack_q}
use python_vscode.Repl.Commands.Received.{read_command}
use python_vscode.Repl.Commands.Received.RoundTrip.{arguments, read_command-name}
use python_vscode.Repl.Commands.Schedule.{
  System, waiting, executing, Event, receives, catches, takes, ends, step, run_events,
}
use python_vscode.Repl.Commands.Schedule.Ended.{left, exit-stuck}
use python_vscode.Repl.Commands.Schedule.Taken.{answered, all_work, taken, IsIdle, taken-answered}
use python_vscode.Repl.Commands.Schedule.Counted.{
  sum_of, gives, takes_one, open_locks, run_events-open_locks,
}

-- An executor that sets a prompt, changes the directory, raises or exits
abbrev executor : Executor
executor (code_item []) s = (returned, record s { ps1 = some (codes "> ") })
executor (code_item (_ ∷ _)) s = (returned, record s { cwd = codes "/tmp" })
executor (script_item _ _) s = (system_exit, s)
executor item s = (raised (codes "NameError"), s)

abbrev start : Session
start = record { modules = codes "sys" ∷ []; ps1 = none; ps2 = none; cwd = codes "/" }

abbrev items : List (Option Item)
items =
    some (code_item [])
    ∷ some attach_item
    ∷ none
    ∷ some (code_item (codes "cd"))
    ∷ some (script_item (codes "a.py") [])
    ∷ some (code_item [])
    ∷ []

abbrev main : Main
main = record { cur_modules = []; cur_ps1 = codes ">>> "; cur_ps2 = codes "... " }

prompts_set : (p q : Text) → (some p ≢ none) × (some q ≢ none)
prompts_set p q = (ground arith, ground arith)

items-IsTidyRun : IsTidyRun executor items (with_prompts start)
items-IsTidyRun =
    let changed = prompts_set (codes "> ") (codes "... ") in
    (
      (changed, inl refl),
      (
        (changed, inr (refl, refl, refl)),
        ((changed, inl refl), ((changed, inl refl), ((changed, inr (refl, refl, refl)), tt))),
      ),
    )

run_items-answers_example :
    answers (run_items executor items start main).0 ≡ map answer (endings executor items start)
run_items-answers_example = run_items-answers executor items start main

abbrev window : Window
window = record { ps1 = []; ps2 = []; cwd = codes "/" }

execution_loop-shown_example :
    Shows
      (hear (execution_loop executor items start).0 window)
      (execution_loop executor items start).1
execution_loop-shown_example = execution_loop-shown executor items start window items-IsTidyRun refl

-- A value with an attribute x of its own, which its class has too
abbrev value : Value
value = record {
  type_name = some (codes "m.C");
  dict_names = some (codes "x" ∷ []);
  dir_names = codes "x" ∷ codes "y" ∷ [];
  in_dict = λ name. some (some (codes "int"));
  on_type = λ name. none;
  on_value = λ name. some (some (codes "str"));
}

abbrev members : Members
members = (codes "m.C", (codes "x", some (codes "int")) ∷ [], (codes "y", some (codes "str")) ∷ [])

value_members : collect_members value ≡ some members
unfolding collect_members insert has
value_members = refl

collect_members-found_example :
    (lookup (codes "y") members.1 ≡ (
      if is_in (codes "y") (names_of value.dict_names)
      then known (value.in_dict (codes "y"))
      else none))
    × (lookup (codes "y") members.2 ≡ (
        if has (codes "y") members.1
        then none
        else if is_in (codes "y") value.dir_names
        then class_first (value.on_type (codes "y")) (value.on_value (codes "y"))
        else none))
collect_members-found_example = collect_members-found value (codes "y") value_members

-- `setm` with the module "os"
abbrev connection : Conn
connection = record { incoming = codes "s" ∷ codes "abrt" ∷ []; outgoing = [] }

abbrev sent_bytes : Text
sent_bytes = 0 ∷ 0 ∷ 0 ∷ 0 ∷ 0 ∷ 0 ∷ 0 ∷ 2 ∷ codes "os"

setm_bytes : args_bytes (arguments (setm (codes "os"))) ≡ some sent_bytes
unfolding encode pack_q
setm_bytes = refl

-- A timeout strikes before anything has arrived, and another after the first two chunks.
abbrev periods : List (List Text)
periods = [] ∷ (codes "set" ∷ (b'm' ∷ 0 ∷ 0 ∷ 0 ∷ 0 ∷ 0 ∷ 0 ∷ 0 ∷ 2 ∷ codes "o") ∷ []) ∷ []

read_command-name_example :
    (chunks : List Text) × (read_command 19 periods connection
      ≡ done (some (setm (codes "os"))) (record connection { incoming = chunks }))
    × Delivers (record connection { incoming = chunks }) [] (codes "abrt")
read_command-name_example =
    read_command-name (setm (codes "os")) sent_bytes 19 periods connection (codes "abrt") setm_bytes
      (omega arith) (omega arith)
      (record {
        chunks = (omega arith, (omega arith, (omega arith, (omega arith, tt))));
        stream = refl;
      })

-- The message that comes next
abbrev command_executed : List Field
command_executed = send_command_executed

abbrev inspector : Inspector
inspector = record {
  known = λ name. true;
  get_members = λ b e. none;
  get_signatures = λ b e. none;
  modules = none;
  sort = λ names. names;
}

abbrev idle : System
idle = record {
  backend = new_backend false (codes "__main__");
  is_receiving = true;
  is_failing = false;
  phase = waiting;
}

abbrev sent_commands : List Command
sent_commands = run (codes "1") ∷ mods ∷ excf (codes "a.py") [] ∷ []

taken-answered_example :
    (taken inspector (answered sent_commands) idle ≡ all_work sent_commands)
    × ((t : System) × (run_events inspector (answered sent_commands) idle ≡ some t) × IsIdle t)
taken-answered_example =
    taken-answered inspector sent_commands idle (refl, (refl, (refl, tt))) (refl, refl, refl, refl)

-- The same back end while a snippet is executed
abbrev occupied : System
occupied = record idle { phase = executing (some (code_item (codes "1"))) }

exit-stuck_example :
    (run_events inspector
        (receives exit ∷ catches ∷ ends returned ∷ takes ∷ ends returned ∷ [])
        occupied
      ≡ some (left occupied))
    × ((event : Event) → step inspector event (left occupied) ≡ none)
exit-stuck_example =
    exit-stuck inspector occupied (code_item (codes "1")) returned refl refl refl refl refl

-- `exit` while nothing is executed: its item is taken before the `except` of the loop gives it again.
abbrev some_events : List Event
some_events = receives exit ∷ takes ∷ catches ∷ []

abbrev after_events : System
after_events = record idle {
  backend = record idle.backend {
    execute_item = some exit_item;
    execute_item_lock = false;
    exit_requested = true;
  };
  is_receiving = false;
  phase = executing (some exit_item);
}

some_events_run : run_events inspector some_events idle ≡ some after_events
unfolding run_events handle exit_process
some_events_run = refl

run_events-open_locks_example :
    sum_of takes_one some_events + open_locks after_events
    ≤ sum_of gives some_events + open_locks idle
run_events-open_locks_example =
    run_events-open_locks inspector some_events idle after_events some_events_run

read_members-members_result_example :
    read_members (members_result members ++ command_executed) ≡ some (members, command_executed)
read_members-members_result_example = read_members-members_result members command_executed
