-- ===== src/Debugger/Tests/Known.antt =====
-- A thread starts and ends beside the main thread.
use python_vscode.Prelude.{true, false, some, List, [], ◌∷◌, ◌≡◌, refl, nat_eq}
use python_vscode.Prelude.Dict.{lookup, insert}
use python_vscode.Debugger.Stepping.{stepping_none, stepping_attach_break}
use python_vscode.Debugger.Registry.{
  Tracked, Registry, Message, started, exited, Event, starts, starts_external, ends, run,
}
use python_vscode.Debugger.Registry.Known.{heard, AreLive, run-heard}

abbrev registry : Registry
registry = record {
  objects = [];
  threads = [];
  debugger_thread_id = 9;
  detached = false;
  intercepting_for_attach = false;
  attach_sent_break = true;
  send_break_complete = false;
}

registry-AreLive : AreLive registry
unfolding lookup
registry-AreLive id = refl

abbrev events : List Event
events = starts 1 true ∷ starts_external 2 ∷ ends 1 ∷ []

abbrev sent : List Message
sent = started 1 ∷ started 2 ∷ exited 1 ∷ []

abbrev tracked_1 : Tracked
tracked_1 = record { stepping = stepping_attach_break; is_blocked = false; detach = false }

abbrev tracked_2 : Tracked
tracked_2 = record { stepping = stepping_none; is_blocked = false; detach = false }

abbrev last : Registry
last = record registry { objects = (1, tracked_1) ∷ (2, tracked_2) ∷ []; threads = 2 ∷ [] }

registry_ran : run events registry ≡ some (last, sent)
unfolding run lookup insert
registry_ran = refl

run-heard_example : heard sent registry.threads ≡ last.threads
run-heard_example = run-heard events registry last sent registry-AreLive registry_ran refl
