-- ===== src/Repl/Commands/Schedule/Ended.antt =====
-- How `exit` ends the process, and how it does not.
use python_vscode.Prelude.{Bool, true, false, not, ◌&&◌, none, some, [], ◌∷◌, ◌≡◌, refl, arith}
use python_vscode.Repl.Main.{Item, Ending, returned}
use python_vscode.Repl.Commands.{
  Command, run, inpl, exit, sett, excf, excx, dbga, Backend, Handled, goes_on, fails, Inspector,
  execute, input, released, handle, handle_or_exit, exit_process,
}
use python_vscode.Repl.Commands.Schedule.{
  waiting, executing, System, Event, receives, catches, takes, ends, next_phase, step, run_events,
}

-- The commands that release the lock of the item, and whether a command ends the loop that receives
abbrev pub is_work : Command → Bool
is_work (run _) = true
is_work (excf _ _) = true
is_work (excx _ _ _) = true
is_work (dbga _ _ _) = true
is_work _ = false

abbrev pub ends_loop : Command → Backend → Bool
ends_loop exit b = true
ends_loop (inpl _) b = not b.input_event
ends_loop (sett _ _ _) b = not b.is_debugging
ends_loop c b = is_work c && not b.execute_item_lock

abbrev pub is_failure : Handled → Bool
is_failure (goes_on acts b) = false
is_failure (fails acts b) = true

-- The system that is left where `exit` comes while an item is executed
abbrev pub left : System → System
left s = record s {
  backend = record s.backend {
    execute_item = none;
    execute_item_lock = true;
    exit_requested = true;
  };
  is_receiving = false;
  is_failing = false;
  phase = waiting;
}

module _ (i : Inspector) where
  -- A command ends the loop that receives exactly if it is `exit`, or a line of input while one is there
  -- already, or it sets the frame of a back end without a debugger, or it gives work while the work that was
  -- given before has not been taken.
  pub handle_or_exit-ends_loop :
      (c : Command) (b : Backend) → is_failure (handle_or_exit i c b) ≡ ends_loop c b
  unfolding handle_or_exit execute input released
  handle_or_exit-ends_loop c b = ground arith

  left-stuck :
      (s : System)
      → s.backend.disconnect_requested ≡ false
      → s.backend.is_debugging ≡ false
      → (event : Event) → step i event (left s) ≡ none
  unfolding step
  left-stuck s d b event = ground arith

  -- While an item is executed that is not the item of `exit`, and that does not end by a `SystemExit`, `exit`
  -- is lost: the item's end clears the item that `exit` has set, nothing is executed in its place, and then no
  -- step can be taken, if there is no debugger that disconnects. The process waits forever.
  pub exit-stuck :
      (s : System) (item : Item) (ending : Ending)
      → s.is_receiving ≡ true
      → s.phase ≡ executing (some item)
      → s.backend.disconnect_requested ≡ false
      → s.backend.is_debugging ≡ false
      → next_phase (some item) ending ≡ some waiting
      → (run_events i (receives exit ∷ catches ∷ ends ending ∷ takes ∷ ends returned ∷ []) s
          ≡ some (left s))
        × ((event : Event) → step i event (left s) ≡ none)
  unfolding run_events handle exit_process
  exit-stuck s item ending r w d b e = (rw (r, w) (rw (d, e) refl), left-stuck s d b)
