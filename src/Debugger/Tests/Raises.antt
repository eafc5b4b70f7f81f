-- ===== src/Debugger/Tests/Raises.antt =====
-- A KeyError that passes through a file with a handler.
use python_vscode.Prelude.{
  ℕ, ◌%◌, ◌/◌, ◌==◌, ◌≡◌, refl, true, false, not, ◌&&◌, some, Option, List, [], ◌∷◌, Text,
  if◌then◌else◌, codes, same, ◌↔◌,
}
use python_vscode.Prelude.Dict.{lookup, insert}
use python_vscode.Debugger.Exceptions.{
  handler_catches, Handler, TraceFrame, Traceback, search_frames, is_handled, Raised,
  ExceptionBreakInfo, handled, no_break, should_break, command_set_exception_info,
  built_in_handlers,
}
use python_vscode.Debugger.Exceptions.Handled.{HandledIn, handlers_of, is_handled_iff}
use python_vscode.Debugger.Exceptions.Modes.{
  last_mode, type_name, break_by, should_break-command_set_exception_info,
}

abbrev key_error : Text
key_error = codes "KeyError"

-- In every file, a `try` on the lines 3 to 5 that catches KeyError.
abbrev answer : List Handler
answer = record { lines = some (3, 6); expressions = key_error ∷ [] } ∷ []

abbrev client : Text → Option (List Handler)
client file = some answer

abbrev frame_at : Text → ℕ → TraceFrame
frame_at file n = record {
  should_send = true;
  filename = some file;
  in_zip = false;
  own = false;
  lineno = n;
  catches = same key_error;
}

abbrev frames : List TraceFrame
frames = frame_at (codes "a.py") 9 ∷ frame_at (codes "b.py") 4 ∷ []

abbrev trace : Option Traceback
trace = some (record { next_debugged = false; frames = frames })

is_handled_iff_example :
    ((search_frames client frames []).is_handled ≡ true) ↔ HandledIn (handlers_of client []) frames
is_handled_iff_example = is_handled_iff client frames []

first_requests : (is_handled client trace []).requests ≡ codes "a.py" ∷ codes "b.py" ∷ []
unfolding is_handled lookup insert handler_catches
first_requests = refl

abbrev raised : Raised
raised = record {
  module_name = codes "builtins";
  name = key_error;
  system_exit = false;
  zero_exit = false;
}

abbrev fresh : ExceptionBreakInfo
fresh = record { default_mode = 0; break_on = []; handler_cache = [] }

abbrev sent : List (ℕ × Text)
sent = (0, key_error) ∷ (1, codes "builtins.KeyError") ∷ []

should_break-command_set_exception_info_example :
    (should_break client false raised trace
      (command_set_exception_info (codes "z" ∷ []) 32 sent fresh)).0
    ≡ (if false && not false && false
        then no_break
        else let m = last_mode (type_name (codes "builtins") key_error) sent 32 in
          break_by
            (m % 2 == 1)
            (m / 32 % 2 == 1)
            (is_handled client trace (built_in_handlers (codes "z" ∷ []))).is_handled)
should_break-command_set_exception_info_example =
    should_break-command_set_exception_info client false raised trace (codes "z" ∷ []) 32 sent fresh

break_on_handled :
    (should_break client false raised trace
      (command_set_exception_info (codes "z" ∷ []) 32 sent fresh)).0
    ≡ handled
unfolding should_break command_set_exception_info lookup insert handler_catches
break_on_handled = refl
