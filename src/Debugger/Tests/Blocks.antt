-- ===== src/Debugger/Tests/Blocks.antt =====
-- A thread that blocks, evaluates once and is resumed.
use python_vscode.Prelude.{◌≡◌, refl, true, false}
use python_vscode.Debugger.Blocking.{
  State, moves, start, block_from, command_from, client_from, unblock, schedule_work, run_on_thread,
  left, thread,
}
use python_vscode.Debugger.Blocking.Table.{has_gone_on, has_lost_work, is_shared}
use python_vscode.Debugger.Blocking.Safety.{Reach, here, next, Reach-is_sound}

-- It waits after its report, evaluates and waits again, and is resumed: it has left its loop.
abbrev resumed : State
resumed = record start {
  place = left;
  cells = record start.cells { is_blocked = true; starting_lock = thread };
}

-- Each number is the move that is made, the last first.
resumed-Reach : Reach start resumed
unfolding moves block_from command_from client_from unblock schedule_work run_on_thread
resumed-Reach =
    next 0
      (next 0
        (next 0
          (next 1
            (next 0
              (next 0
                (next 1
                  (next 0
                    (next 0
                      (next 0
                        (next 0
                          (next 0
                            (next 1
                              (next 0
                                (next 0
                                  (next 0
                                    (next 0
                                      (next 0
                                        (next 0 (next 0 (next 0 (next 0 here refl) refl) refl) refl)
                                        refl)
                                      refl)
                                    refl)
                                  refl)
                                refl)
                              refl)
                            refl)
                          refl)
                        refl)
                      refl)
                    refl)
                  refl)
                refl)
              refl)
            refl)
          refl)
        refl)
      refl

Reach-is_sound_example :
    (resumed.failed ≡ false)
    × ((has_gone_on resumed.place resumed.client ≡ false)
        × ((has_lost_work resumed.client resumed.command resumed.cells ≡ false)
            × (is_shared resumed.place resumed.command resumed.cells.starting_lock ≡ false)))
Reach-is_sound_example = Reach-is_sound resumed-Reach
