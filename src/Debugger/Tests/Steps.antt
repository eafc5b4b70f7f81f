-- ===== src/Debugger/Tests/Steps.antt =====
-- A module that calls a function, which calls code that is not debugged.
use python_vscode.Prelude.{◌≡◌, refl, true, false, some, none, [], ◌∷◌, ◌++◌, inl, if◌then◌else◌}
use python_vscode.Prelude.Int.{ℤ}
use python_vscode.Debugger.Stepping.{
  Frame, Stack, Globals, off, Thread, call, line, ret, step_finished, stepping_over, stepping_out,
  stepping_into, should_block_on_frame,
}
use python_vscode.Debugger.Stepping.Calls.{
  Body, finished, at_line, calls, events, went_on, stopped, run, last_line, run-call,
}
use python_vscode.Debugger.Stepping.Landing.{
  leaves_line, run-step_over, run-step_out, run-step_into,
}

abbrev module_frame : Frame
module_frame = record {
  debuggable = true;
  entrypoint = false;
  debugger_file = false;
  is_module = true;
  is_file = true;
}

abbrev function_frame : Frame
function_frame = record {
  debuggable = true;
  entrypoint = false;
  debugger_file = false;
  is_module = false;
  is_file = true;
}

abbrev library_frame : Frame
library_frame = record {
  debuggable = false;
  entrypoint = false;
  debugger_file = false;
  is_module = false;
  is_file = true;
}

abbrev globals : Globals
globals = record {
  detached = false;
  modules_loaded = true;
  attach_sent_break = false;
  send_break_complete = off;
}

-- A thread that stopped on line 7.
abbrev thread : Stack → ℤ → Thread
thread stack mode = record {
  id = 4;
  cur_frame = stack;
  cur_line = 7;
  stepping = mode;
  stopped_on_line = some 7;
  is_blocked = false;
  detach = false;
  reported_process_loaded = false;
  is_sending = false;
}

-- What the function runs: line 20, a call of the library, which calls the function back, and line 21.
abbrev function_body : Body
function_body = at_line 20 (
    calls library_frame 90
      (at_line 91 (calls function_frame 19 (at_line 20 finished) 20 91 finished)) 91 20
      (at_line 21 finished))

-- What the module runs from line 7: the call of the function, and then line 8.
abbrev module_body : Body
module_body = at_line 7 (calls function_frame 19 function_body 21 7 (at_line 8 finished))

abbrev top : Stack
top = module_frame ∷ []

run-step_over_example : run globals (events top module_body) (thread top stepping_over) ≡ (
    if leaves_line (some 7) module_body
    then stopped (step_finished 4 ∷ [])
    else went_on (record (thread top stepping_over) { cur_line = last_line 7 module_body }))
run-step_over_example =
    run-step_over module_frame [] module_body globals (thread top stepping_over) refl refl refl refl
      (unfold should_block_on_frame in refl)

run-step_out_example :
    (run globals
        (events (function_frame ∷ top) function_body)
        (thread (function_frame ∷ top) stepping_out)
      ≡ went_on (record (thread (function_frame ∷ top) stepping_out) {
        cur_line = last_line 7 function_body;
      }))
    × (run globals
          (events (function_frame ∷ top) function_body ++ ret (function_frame ∷ top) 21 7 ∷ [])
          (thread (function_frame ∷ top) stepping_out)
        ≡ (if should_block_on_frame top
            then stopped (step_finished 4 ∷ [])
            else went_on (record (thread (function_frame ∷ top) stepping_out) {
              cur_frame = top;
              cur_line = 7;
            })))
run-step_out_example =
    run-step_out function_frame module_frame [] function_body 21 7 globals
      (thread (function_frame ∷ top) stepping_out) refl refl refl refl refl refl

run-step_into_example :
    (run globals (call (function_frame ∷ top) 19 ∷ []) (thread top stepping_into)
      ≡ went_on (record (thread top stepping_into) {
        cur_frame = function_frame ∷ top;
        cur_line = 19;
        stepping = stepping_over;
        stopped_on_line = none;
      }))
    × (run globals
          (call (function_frame ∷ top) 19
            ∷ line (function_frame ∷ top) 20 none
            ∷ line (function_frame ∷ top) 21 none
            ∷ [])
          (thread top stepping_into)
        ≡ stopped (step_finished 4 ∷ []))
run-step_into_example =
    run-step_into function_frame module_frame [] 19 20 (line (function_frame ∷ top) 21 none ∷ [])
      globals (thread top stepping_into) refl refl refl refl (unfold should_block_on_frame in refl)

run-call_example :
    run globals
      (call (library_frame ∷ top) 90
        ∷ (events (library_frame ∷ top) function_body
            ++ ret (library_frame ∷ top) 91 7 ∷ line top 8 none ∷ []))
      (thread top stepping_over)
    ≡ run globals (line top 8 none ∷ []) (record (thread top stepping_over) { cur_line = 7 })
run-call_example =
    run-call library_frame module_frame [] 90 91 7 function_body (line top 8 none ∷ []) globals
      (thread top stepping_over) refl refl refl (inl refl)
