-- ===== src/Debugger/Blocking.antt =====
-- The locks of a blocked thread: `Thread.block` as it runs beside the commands of DebuggerLoop that resume
-- the thread or evaluate on it (pythonFiles/PythonTools/visualstudio_py_debugger.py). Each move is one access
-- to what the two share. DETACHED is off, and a report to the client is one move.
pub mod Table
pub mod Safety
use python_vscode.Prelude.{Bool, true, false, not, List, [], ◌∷◌, ◌++◌, if◌then◌else◌}

-- Where the thread is in `block`: outside of it, with `_block_starting_lock`, marked as blocked, after
-- the report, at `_block_lock.acquire()`, behind it, at and after its work, after it has cleared that, out of
-- the loop, with `_block_starting_lock` again, and no longer marked.
pub data Place : Type 0 where
  outside locked marked reported waiting woken working worked cleared leaving left unmarked : Place

-- Where the debugger's thread is: between commands; in `run_on_thread` before the lock, behind it, after
-- its tests and in `schedule_work`; in `command_resume_all` before and behind the lock; in
-- `command_resume_thread`; before it gives the lock back
pub data Command : Type 0 where
  idle asked_work locked_work tested_work scheduled : Command
  asked_resume locked_resume asked_thread releasing : Command

-- What the client knows of the thread: it runs, it is stopped, or it owes the answer of an evaluation.
pub data Client : Type 0 where
  running stopped evaluating : Client

-- Who holds `_block_starting_lock`
pub data Owner : Type 0 where
  nobody thread debugger : Owner

-- `_is_blocked`, `_is_working`, is there an `unblock_work`, is `_block_lock` held, and who holds the other lock
pub record Cells : Type 0 where
  pub is_blocked : Bool
  pub is_working : Bool
  pub has_work : Bool
  pub block_lock : Bool
  pub starting_lock : Owner

-- `failed` is an AssertionError, or the release of a lock that nobody holds.
pub record State : Type 0 where
  pub place : Place
  pub client : Client
  pub command : Command
  pub cells : Cells
  pub failed : Bool

abbrev pub is_free : Owner → Bool
is_free nobody = true
is_free thread = false
is_free debugger = false

abbrev pub set : Cells → State → State
set c s = record s { cells = c }

abbrev pub fail : State → State
fail s = record s { failed = true }

-- The next move of `block`, if there is one now
unfoldable pub block_from : Place → State → List State
block_from outside s =
    if s.cells.is_blocked
    then fail s ∷ []
    else if is_free s.cells.starting_lock
    then set (record s.cells { starting_lock = thread }) (record s { place = locked }) ∷ []
    else []
block_from locked s = set (record s.cells { is_blocked = true }) (record s { place = marked }) ∷ []
block_from marked s = record s { place = reported; client = stopped } ∷ []
block_from reported s =
    set (record s.cells { starting_lock = nobody }) (record s { place = waiting }) ∷ []
block_from waiting s =
    if s.cells.block_lock
    then []
    else set (record s.cells { block_lock = true }) (record s { place = woken }) ∷ []
block_from woken s =
    if s.cells.has_work
    then set (record s.cells { is_working = true }) (record s { place = working }) ∷ []
    else record s { place = leaving } ∷ []
block_from working s = record s { place = worked; client = stopped } ∷ []
block_from worked s = set (record s.cells { has_work = false }) (record s { place = cleared }) ∷ []
block_from cleared s =
    set (record s.cells { is_working = false }) (record s { place = waiting }) ∷ []
block_from leaving s =
    if is_free s.cells.starting_lock
    then set (record s.cells { starting_lock = thread }) (record s { place = left }) ∷ []
    else []
block_from left s =
    if s.cells.is_blocked
    then set (record s.cells { is_blocked = false }) (record s { place = unmarked }) ∷ []
    else fail s ∷ []
block_from unmarked s =
    set (record s.cells { starting_lock = nobody }) (record s { place = outside }) ∷ []

-- `unblock`, and on to the place `next`
unfoldable pub unblock : Command → State → State
unblock next s =
    if s.cells.is_blocked
    then (if s.cells.block_lock
        then set (record s.cells { block_lock = false }) (record s { command = next })
        else fail s)
    else fail s

-- `schedule_work` up to its call of `unblock`
unfoldable pub schedule_work : State → State
schedule_work s = set (record s.cells { has_work = true }) (record s { command = scheduled })

-- The two tests of `run_on_thread`; the client gets an error as its answer if one of them fails.
unfoldable pub run_on_thread : State → State
run_on_thread s =
    if not s.cells.is_blocked
    then record s { command = releasing; client = stopped }
    else if not s.cells.is_working
    then record s { command = tested_work }
    else record s { command = releasing; client = stopped }

abbrev pub lock_for : Command → State → List State
lock_for next s =
    if is_free s.cells.starting_lock
    then set (record s.cells { starting_lock = debugger }) (record s { command = next }) ∷ []
    else []

-- The next move of the command that is carried out
unfoldable pub command_from : Command → State → List State
unfolding run_on_thread schedule_work unblock
command_from idle s = []
command_from asked_work s = lock_for locked_work s
command_from locked_work s = run_on_thread s ∷ []
command_from tested_work s = schedule_work s ∷ []
command_from scheduled s = unblock releasing s ∷ []
command_from asked_resume s = lock_for locked_resume s
command_from locked_resume s =
    (if s.cells.is_blocked then unblock releasing s else record s { command = releasing }) ∷ []
command_from asked_thread s = unblock idle s ∷ []
command_from releasing s =
    set (record s.cells { starting_lock = nobody }) (record s { command = idle }) ∷ []

-- A client that waits for its answers: it sends commands for a thread that is stopped.
unfoldable pub client_from : Client → Command → State → List State
client_from stopped idle s =
    record s { client = evaluating; command = asked_work }
    ∷ record s { client = running; command = asked_resume }
    ∷ record s { client = running; command = asked_thread }
    ∷ []
client_from _ _ s = []

unfoldable pub moves : State → List State
unfolding block_from command_from client_from
moves s = block_from s.place s ++ (command_from s.command s ++ client_from s.client s.command s)

-- A thread that runs
abbrev pub start : State
start = record {
  place = outside;
  client = running;
  command = idle;
  cells = record {
    is_blocked = false;
    is_working = false;
    has_work = false;
    block_lock = true;
    starting_lock = nobody;
  };
  failed = false;
}
