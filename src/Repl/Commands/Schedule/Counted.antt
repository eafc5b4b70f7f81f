-- ===== src/Repl/Commands/Schedule/Counted.antt =====
-- In any order of the steps, no more is executed than was given.
use python_vscode.Prelude.{
  ℕ, ◌+◌, ◌≤◌, Bool, not, some, List, [], ◌∷◌, if◌then◌else◌, ◌≡◌, arith, Option-cases, inl, inr,
}
use python_vscode.Repl.Commands.{
  Command, exit, Backend, Handled, goes_on, fails, Inspector, handle, execute, released, input,
  exit_process, disconnect_from_debugger, set_current_module,
}
use python_vscode.Repl.Commands.Schedule.{
  System, Event, receives, breaks, catches, stops, takes, reads_line, leaves, disconnects, ends,
  received, step, run_events,
}
use python_vscode.Repl.Commands.Schedule.Ended.{is_work}

-- What gives the lock: work, `exit` and disconnects; and what takes it
abbrev pub gives : Event → ℕ
gives (receives exit) = 1
gives (receives c) = if is_work c then 1 else 0
gives disconnects = 1
gives _ = 0

abbrev pub takes_one : Event → ℕ
takes_one takes = 1
takes_one _ = 0

abbrev pub sum_of : (Event → ℕ) → List Event → ℕ
sum_of f [] = 0
sum_of f (e ∷ events) = f e + sum_of f events

abbrev one_if : Bool → ℕ
one_if b = if b then 1 else 0

-- The lock that is free, and the one that the end of the thread that receives still gives
abbrev pub open_locks : System → ℕ
open_locks s =
    one_if (not s.backend.execute_item_lock) + (one_if s.is_receiving + one_if s.is_failing)

abbrev backend_of : Handled → Backend
backend_of (goes_on acts b) = b
backend_of (fails acts b) = b

module _ (i : Inspector) where
  -- What a command leaves of the lock
  handle-locks :
      (c : Command) (b : Backend)
      → one_if (not (backend_of (handle i c b)).execute_item_lock)
        ≤ gives (receives c) + one_if (not b.execute_item_lock)
  unfolding handle execute released input exit_process set_current_module
  handle-locks c b = ground arith

  received-locks :
      (s : System) (h : Handled)
      → open_locks (received s h)
        ≤ one_if (not (backend_of h).execute_item_lock) + (one_if s.is_failing + 1)
  received-locks s (goes_on acts b) = ground arith
  received-locks s (fails acts b) = ground arith

  step-open_locks :
      (e : Event) (s t : System)
      → step i e s ≡ some t
      → takes_one e + open_locks t ≤ gives e + open_locks s
  unfolding step exit_process disconnect_from_debugger released
  step-open_locks (receives c) s t h =
      ground (arith, handle-locks c s.backend, received-locks s (handle i c s.backend))
  step-open_locks breaks s t h = ground arith
  step-open_locks catches s t h = ground arith
  step-open_locks stops s t h = ground arith
  step-open_locks takes s t h = ground arith
  step-open_locks reads_line s t h = ground arith
  step-open_locks leaves s t h = ground arith
  step-open_locks disconnects s t h = ground arith
  step-open_locks (ends ending) s t h = ground arith

  -- In any order of the steps of the two threads, the lock is taken no more often than work is given, `exit`
  -- comes or the debugger disconnects, and once more by the `except` of the thread that receives: the lock,
  -- where it is free, and that `except`, where it may still come, count as what may yet be taken.
  pub run_events-open_locks :
      (events : List Event) (s t : System)
      → run_events i events s ≡ some t
      → sum_of takes_one events + open_locks t ≤ sum_of gives events + open_locks s
  unfolding run_events
  run_events-open_locks [] s t h = ground arith
  run_events-open_locks (e ∷ events) s t h = elim (Option-cases (step i e s)) [
    | inl n ↦ absurd (cc (rw n at h))
    | inr (u, k) ↦
        let h' : run_events i events u ≡ some t = rw k at h in
        omega (arith, step-open_locks e s u k, run_events-open_locks events u t h')
  ]
