-- ===== src/Debugger/Threads.antt =====
-- The commands that stop and resume threads (pythonFiles/PythonTools/visualstudio_py_debugger.py): THREADS
-- is a dictionary of threads. A thread that is unblocked and has no work to do goes on.
pub mod Resume
use python_vscode.Prelude.{
  ℕ, Bool, true, false, not, ◌||◌, ◌&&◌, Option, none, some, List, [], ◌∷◌, ◌==◌, if◌then◌else◌,
  nat_eq,
}
use python_vscode.Prelude.Int.{ℤ, eqb_ℤ}
use python_vscode.Prelude.Dict.{Dict, lookup, insert}
use python_vscode.Debugger.Stepping.{
  Thread, SendBreak, any_thread, Globals, Message, step_finished, stepping_none, stepping_break,
  stepping_attach_break, stepping_into, stepping_over, stepping_out, is_step, on_line,
}

abbrev pub Threads : Type 0
Threads = Dict ℕ Thread

unfoldable pub map_values : (Thread → Thread) → Threads → Threads
map_values f [] = []
map_values f ((id, t) ∷ threads) = (id, f t) ∷ map_values f threads

-- `mark_all_threads_for_break(stepping, skip_thread)`
unfoldable pub mark_all_threads_for_break : ℤ → Option ℕ → Threads → Threads
mark_all_threads_for_break mode skip [] = []
mark_all_threads_for_break mode skip ((id, t) ∷ threads) =
    let rest = mark_all_threads_for_break mode skip threads in
    let skipped : Bool = elim skip [ none ↦ false | some i ↦ i == id ] in
    (id, if skipped then t else record t { stepping = mode }) ∷ rest

unfoldable pub command_break_all : Globals → Threads → Globals × Threads
unfolding mark_all_threads_for_break
command_break_all g threads = (
  record g { send_break_complete = any_thread },
  mark_all_threads_for_break stepping_break none threads,
)

-- The body of the loop of `command_resume_all`
unfoldable pub resume : Thread → Thread
resume t = record t {
  stepping =
      if eqb_ℤ t.stepping stepping_break || eqb_ℤ t.stepping stepping_attach_break
      then stepping_none
      else t.stepping;
  is_blocked = false;
}

unfoldable pub command_resume_all : Threads → Threads
unfolding map_values resume
command_resume_all threads = map_values resume threads

-- `none` is the AssertionError of a thread that is not blocked.
abbrev pub step_found : ℤ → ℕ → Option Thread → Threads → Option Threads
step_found mode id none threads = some threads
step_found mode id (some t) threads =
    if t.is_blocked
    then some (map_values resume (insert id (record t { stepping = mode }) threads))
    else none

unfoldable pub command_step : ℤ → ℕ → Threads → Option Threads
unfolding map_values resume
command_step mode id threads = step_found mode id (lookup id threads) threads

abbrev pub command_step_into : ℕ → Threads → Option Threads
command_step_into = command_step stepping_into

abbrev pub command_step_out : ℕ → Threads → Option Threads
command_step_out = command_step stepping_out

-- DJANGO_DEBUG is off.
abbrev pub command_step_over : ℕ → Threads → Option Threads
command_step_over = command_step stepping_over

abbrev clear_found : ℕ → Option Thread → Threads → Threads
clear_found id none threads = threads
clear_found id (some t) threads = insert id (record t { stepping = stepping_none }) threads

unfoldable pub command_clear_stepping : ℕ → Threads → Threads
command_clear_stepping id threads = clear_found id (lookup id threads) threads

-- `none` is the KeyError of THREADS[tid].
unfoldable pub command_auto_resume : ℕ → Threads → Option (List Message × Threads)
unfolding command_resume_all
command_auto_resume id threads =
    let resumed : Threads = command_resume_all threads in
    elim (lookup id threads) [
      | none ↦ none
      | some t ↦ some (
          if is_step t.stepping && not (on_line t.stopped_on_line t.cur_line)
          then (step_finished id ∷ [], threads)
          else ([], resumed))
    ]

abbrev resume_found : ℕ → Option Thread → Threads → Option Threads
resume_found id none threads = none
resume_found id (some t) threads =
    if t.reported_process_loaded
    then some (map_values resume (insert id (record t { reported_process_loaded = false }) threads))
    else if t.is_blocked
    then some (insert id (record t { is_blocked = false }) threads)
    else none

-- `none` is the KeyError of THREADS[tid], or the AssertionError of `unblock`.
unfoldable pub command_resume_thread : ℕ → Threads → Option Threads
unfolding map_values resume
command_resume_thread id threads = resume_found id (lookup id threads) threads
