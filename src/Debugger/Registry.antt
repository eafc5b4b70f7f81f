-- ===== src/Debugger/Registry.antt =====
-- The dictionary THREADS as threads start and end, and the detaching of the debugger
-- (pythonFiles/PythonTools/visualstudio_py_debugger.py). Of a thread it holds what these functions read and
-- write; each function is one step.
pub mod Known
use python_vscode.Prelude.{
  ℕ, Bool, true, false, not, ◌&&◌, Option, none, some, List, [], ◌∷◌, ◌++◌, ◌==◌, if◌then◌else◌,
  nat_eq, codes,
}
use python_vscode.Prelude.Int.{ℤ}
use python_vscode.Prelude.Dict.{Dict, lookup, insert, remove, has}
use python_vscode.Debugger.Reports.{Field, raw, report_new_thread, report_thread_exit}
use python_vscode.Debugger.Stepping.{stepping_none, stepping_break, stepping_attach_break}

pub record Tracked : Type 0 where
  pub stepping : ℤ
  pub is_blocked : Bool
  pub detach : Bool

-- The thread objects that were made, by their ids, whether they are in THREADS or not; the keys of THREADS;
-- the id of the thread of the debugger; and DETACHED, _INTERCEPTING_FOR_ATTACH, attach_sent_break, and whether
-- SEND_BREAK_COMPLETE is set.
pub record Registry : Type 0 where
  pub objects : Dict ℕ Tracked
  pub threads : List ℕ
  pub debugger_thread_id : ℕ
  pub detached : Bool
  pub intercepting_for_attach : Bool
  pub attach_sent_break : Bool
  pub send_break_complete : Bool

pub data Message : Type 0 where
  started exited : ℕ → Message
  detached_process : Message

unfoldable pub message_fields : Message → List Field
message_fields (started id) = report_new_thread id
message_fields (exited id) = report_thread_exit id
message_fields detached_process = raw (codes "DETC") ∷ []

abbrev pub is_key : ℕ → List ℕ → Bool
is_key id [] = false
is_key id (i ∷ ids) = let rest = is_key id ids in if i == id then true else rest

abbrev pub add_key : ℕ → List ℕ → List ℕ
add_key id ids = if is_key id ids then ids else id ∷ ids

abbrev pub remove_key : ℕ → List ℕ → List ℕ
remove_key id [] = []
remove_key id (i ∷ ids) = let rest = remove_key id ids in if i == id then ids else i ∷ rest

abbrev pub unless_detached : Registry → List Message → List Message
unless_detached r sent = if r.detached then [] else sent

-- What `new_thread` does of a thread that is not left out
unfoldable pub register : ℕ → ℤ → Registry → Registry × List Message
register id mode r = (
  record r {
    objects = insert id (record { stepping = mode; is_blocked = false; detach = false }) r.objects;
    threads = add_key id r.threads;
  },
  unless_detached r (started id ∷ []),
)

-- `new_thread` of an id: the thread of the debugger is left out.
unfoldable pub new_thread : ℕ → Bool → Registry → Registry × List Message
unfolding register
new_thread id set_break r =
    if id == r.debugger_thread_id
    then (r, [])
    else register id (if set_break then stepping_attach_break else stepping_none) r

-- `new_external_thread`, which calls `new_thread` without an id, so that no thread is left out: the mode is set
-- once the thread is made.
unfoldable pub new_external_thread : ℕ → Registry → Registry × List Message
unfolding register
new_external_thread id r =
    register id
      (if not r.attach_sent_break
        then stepping_attach_break
        else if r.send_break_complete
        then stepping_break
        else stepping_none)
      r

-- `del THREADS[id]`, none where it raises a KeyError
abbrev pub delete : ℕ → Registry → Option Registry
delete id r =
    if is_key id r.threads then some (record r { threads = remove_key id r.threads }) else none

abbrev pub is_detached_thread : Option Tracked → Bool
is_detached_thread none = false
is_detached_thread (some t) = t.detach

-- What is left, with the report of it
abbrev pub reported : (Registry → List Message) → Option Registry → Option (Registry × List Message)
reported report none = none
reported report (some r) = some (r, report r)

-- The end of `new_thread_wrapper`
unfoldable pub wrapper_ends : ℕ → Registry → Option (Registry × List Message)
wrapper_ends id r =
    reported (λ u. unless_detached u (exited id ∷ []))
      (if is_detached_thread (lookup id r.objects) then some r else delete id r)

-- The end of `debug`, which runs the main thread, up to the message of the last event
unfoldable pub main_ends : ℕ → Registry → Option (Registry × List Message)
main_ends id r = reported (λ u. exited id ∷ []) (delete id r)

abbrev pub detached_thread : Bool → Tracked → Tracked
detached_thread true t = record t { is_blocked = false }
detached_thread false t = record t { detach = true; stepping = stepping_break; is_blocked = false }

-- The loop of `detach_threads`
abbrev pub detach_all : Bool → List ℕ → Dict ℕ Tracked → Dict ℕ Tracked
detach_all attaching ids [] = []
detach_all attaching ids ((id, t) ∷ objects) =
    (id, if is_key id ids then detached_thread attaching t else t)
    ∷ detach_all attaching ids objects

-- It clears BREAKPOINTS too, which is not part of this state.
unfoldable pub detach_threads : Registry → Registry
detach_threads r = record r {
  objects = detach_all r.intercepting_for_attach r.threads r.objects;
  threads = if r.intercepting_for_attach then r.threads else [];
}

-- `command_detach`, up to the callbacks and the exception that ends the loop
unfoldable pub command_detach : Registry → Registry × List Message
unfolding detach_threads
command_detach r = (record (detach_threads r) { detached = true }, detached_process ∷ [])

pub data Event : Type 0 where
  starts : ℕ → Bool → Event
  starts_external ends ends_main : ℕ → Event
  detaches : Event

unfoldable pub handle_event : Event → Registry → Option (Registry × List Message)
unfolding new_thread new_external_thread wrapper_ends main_ends command_detach
handle_event (starts id set_break) r = some (new_thread id set_break r)
handle_event (starts_external id) r = some (new_external_thread id r)
handle_event (ends id) r = wrapper_ends id r
handle_event (ends_main id) r = main_ends id r
handle_event detaches r = some (command_detach r)

abbrev pub and_then :
    List Message → Option (Registry × List Message) → Option (Registry × List Message)
and_then sent none = none
and_then sent (some (r, more)) = some (r, sent ++ more)

-- Events one after the other, none where one raises
unfoldable pub run : List Event → Registry → Option (Registry × List Message)
unfolding handle_event
run [] r = some (r, [])
run (e ∷ events) r = elim (handle_event e r) [
  | none ↦ none
  | some (s, sent) ↦ and_then sent (run events s)
]
