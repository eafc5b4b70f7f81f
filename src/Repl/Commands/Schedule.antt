-- ===== src/Repl/Commands/Schedule.antt =====
-- The thread that receives commands and the thread that executes them, over the back end that they share:
-- each takes one step at a time, a handler, the `except` of the loop that receives, or a part of
-- `run_one_command`. So `exit` is two steps that each call `exit_process`, and the lock may be taken between
-- them.
pub mod Ended
pub mod Taken
pub mod Counted
use python_vscode.Prelude.{
  ℕ, ◌+◌, Bool, true, false, not, ◌&&◌, Option, none, some, List, [], ◌∷◌, if◌then◌else◌,
}
use python_vscode.Prelude.Options.{◌>>=◌}
use python_vscode.Repl.Main.{Item, exit_item, Ending, returned, system_exit, raised}
use python_vscode.Repl.Commands.{
  Command, Backend, Handled, goes_on, fails, Inspector, handle, exit_process,
  disconnect_from_debugger,
}

-- Where `run_one_command` is: before it takes the lock, in the item, in the loop that waits for
-- `exit_requested`, or after the end of `execution_loop`
pub data Phase : Type 0 where
  waiting leaving over : Phase
  executing : Option Item → Phase

-- `is_receiving`: the thread of `_repl_loop` is in its loop; `is_failing`: an exception has ended the loop, and
-- its `except` is still to run.
pub record System : Type 0 where
  pub backend : Backend
  pub is_receiving : Bool
  pub is_failing : Bool
  pub phase : Phase

-- A command comes, reading one raises, the `except` of the loop runs, the loop sees that a disconnect is
-- requested, the lock is taken, the item reads a line of input, which has come, the item ends,
-- `exit_requested` is seen, and the debugger disconnects.
pub data Event : Type 0 where
  receives : Command → Event
  breaks catches stops takes reads_line leaves disconnects : Event
  ends : Ending → Event

-- What has become of the thread that receives
abbrev pub received : System → Handled → System
received s (goes_on acts b) = record s { backend = b }
received s (fails acts b) = record s { backend = b; is_receiving = false; is_failing = true }

-- `read_line` takes the lock of the input, if it is free.
abbrev pub read_line : System → Phase → Option System
read_line s (executing (some item)) =
    if s.backend.input_event
    then none
    else some (record s { backend = record s.backend { input_event = true } })
read_line s _ = none

-- The thread that executes takes the lock if it is free.
abbrev pub take : System → Phase → Option System
take s waiting =
    let b : Backend = record s.backend { execute_item_lock = true } in
    if s.backend.execute_item_lock
    then none
    else some (record s {
      backend = b;
      phase = if b.disconnect_requested then over else executing b.execute_item;
    })
take s _ = none

-- An item ends, and is cleared: `exit_work_item` by a `SystemExit`, None by returning.
abbrev pub next_phase : Option Item → Ending → Option Phase
next_phase none returned = some waiting
next_phase none _ = none
next_phase (some exit_item) system_exit = some leaving
next_phase (some exit_item) _ = none
next_phase (some item) system_exit = some leaving
next_phase (some item) _ = some waiting

abbrev pub end : Ending → System → Phase → Option System
end ending s (executing item) = next_phase item ending >>= λ phase.
    some (record s { backend = record s.backend { execute_item = none }; phase = phase })
end ending s _ = none

abbrev pub leave : System → Phase → Option System
leave s leaving = if s.backend.exit_requested then some (record s { phase = over }) else none
leave s _ = none

-- Where the release of the lock raises, the disconnect is requested all the same.
abbrev pub disconnected : System → Handled → System
disconnected s (goes_on acts b) = record s { backend = b }
disconnected s (fails acts b) = record s { backend = b }

module _ (i : Inspector) where
  -- One step, if it can be taken
  unfoldable pub step : Event → System → Option System
  unfolding handle exit_process disconnect_from_debugger
  step (receives c) s = if s.is_receiving then some (received s (handle i c s.backend)) else none
  step breaks s =
      if s.is_receiving then some (record s { is_receiving = false; is_failing = true }) else none
  step catches s =
      if s.is_failing
      then some (record s { backend = exit_process s.backend; is_failing = false })
      else none
  step stops s =
      if s.is_receiving && s.backend.disconnect_requested
      then some (record s { is_receiving = false })
      else none
  step takes s = take s s.phase
  step reads_line s = read_line s s.phase
  step (ends ending) s = end ending s s.phase
  step leaves s = leave s s.phase
  step disconnects s =
      if s.backend.is_debugging
      then some (disconnected s (disconnect_from_debugger s.backend))
      else none

  -- Steps one after the other, if each can be taken
  unfoldable pub run_events : List Event → System → Option System
  unfolding step
  run_events [] s = some s
  run_events (e ∷ events) s = step e s >>= λ t. run_events events t
