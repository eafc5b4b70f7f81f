-- ===== src/Debugger/Tests/Resumes.antt =====
-- A step over of one of two blocked threads, where the other was to break.
use python_vscode.Prelude.{ℕ, ◌≡◌, refl, true, false, some, [], ◌∷◌, ◌==◌, if◌then◌else◌, nat_eq}
use python_vscode.Prelude.Int.{ℤ}
use python_vscode.Prelude.Dict.{lookup}
use python_vscode.Debugger.Stepping.{Thread, stepping_over, stepping_break, stepping_none}
use python_vscode.Debugger.Threads.{Threads, command_step}
use python_vscode.Debugger.Threads.Resume.{resumed_thread, command_step_lem}

abbrev waiting : ℕ → ℤ → Thread
waiting id mode = record {
  id = id;
  cur_frame = [];
  cur_line = 3;
  stepping = mode;
  stopped_on_line = some 3;
  is_blocked = true;
  detach = false;
  reported_process_loaded = false;
  is_sending = false;
}

abbrev both : Threads
both = (1, waiting 1 stepping_none) ∷ (2, waiting 2 stepping_break) ∷ []

command_step_lem_example :
    (out : Threads) × (command_step stepping_over 1 both ≡ some out)
    × (lookup 2 out ≡ (
        if 1 == 2
        then some
            (record (waiting 1 stepping_none) { stepping = stepping_over; is_blocked = false })
        else resumed_thread (lookup 2 both)))
command_step_lem_example =
    command_step_lem stepping_over 1 2 both (waiting 1 stepping_none) (unfold lookup in refl) refl
      refl
