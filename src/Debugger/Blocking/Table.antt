-- ===== src/Debugger/Blocking/Table.antt =====
-- What the two threads share, in each situation that they come to.
use python_vscode.Prelude.{
  ◌≡◌, refl, Bool, true, false, not, ◌&&◌, ◌||◌, Option, none, some, List, [], ◌∷◌, if◌then◌else◌,
}
use python_vscode.Debugger.Blocking.{
  Place, outside, locked, marked, reported, waiting, woken, working, worked, cleared, leaving, left,
  unmarked, Command, idle, asked_work, locked_work, tested_work, scheduled, asked_resume,
  locked_resume, asked_thread, releasing, Client, running, stopped, evaluating, Owner, nobody,
  thread, debugger, Cells, State, moves, block_from, command_from, client_from, unblock,
  schedule_work, run_on_thread,
}

-- `is_blocked`, `is_working`, `has_work`, `block_lock`, and who has the other lock
abbrev cells : Bool → Bool → Bool → Bool → Owner → Option Cells
cells blocked busy work lock owner = some (record {
  is_blocked = blocked;
  is_working = busy;
  has_work = work;
  block_lock = lock;
  starting_lock = owner;
})

-- Who holds the lock while the thread does not
abbrev holder : Command → Owner
holder idle = nobody
holder asked_work = nobody
holder locked_work = debugger
holder tested_work = debugger
holder scheduled = debugger
holder asked_resume = nobody
holder locked_resume = debugger
holder asked_thread = nobody
holder releasing = debugger

-- While the thread holds the lock after its report
abbrev at_report : Client → Command → Option Cells
at_report stopped idle = cells true false false true thread
at_report evaluating asked_work = cells true false false true thread
at_report running asked_resume = cells true false false true thread
at_report running asked_thread = cells true false false true thread
at_report running idle = cells true false false false thread
at_report _ _ = none

-- While it waits
abbrev at_wait : Client → Command → Option Cells
at_wait stopped idle = cells true false false true nobody
at_wait stopped releasing = cells true false false true debugger
at_wait evaluating asked_work = cells true false false true nobody
at_wait evaluating locked_work = cells true false false true debugger
at_wait evaluating tested_work = cells true false false true debugger
at_wait evaluating scheduled = cells true false true true debugger
at_wait evaluating releasing = cells true false true false debugger
at_wait evaluating idle = cells true false true false nobody
at_wait running asked_resume = cells true false false true nobody
at_wait running locked_resume = cells true false false true debugger
at_wait running asked_thread = cells true false false true nobody
at_wait running releasing = cells true false false false debugger
at_wait running idle = cells true false false false nobody
at_wait _ _ = none

-- Once it has the lock `_block_lock`, with work or without
abbrev awake : Bool → Bool → Client → Command → Option Cells
awake busy work evaluating idle = if work then cells true busy true true nobody else none
awake busy work evaluating releasing = if work then cells true busy true true debugger else none
awake busy work running idle = if work then none else cells true busy false true nobody
awake busy work running releasing = if work then none else cells true busy false true debugger
awake busy work _ _ = none

abbrev either : Option Cells → Option Cells → Option Cells
either none c = c
either (some c) d = some c

-- After its work, which a new evaluation is refused and a resume does not wait for
abbrev after_work : Bool → Client → Command → Option Cells
after_work work stopped idle = cells true true work true nobody
after_work work stopped releasing = cells true true work true debugger
after_work work evaluating asked_work = cells true true work true nobody
after_work work evaluating locked_work = cells true true work true debugger
after_work work running asked_resume = cells true true work true nobody
after_work work running locked_resume = cells true true work true debugger
after_work work running asked_thread = cells true true work true nobody
after_work work running releasing = cells true true work false debugger
after_work work running idle = cells true true work false nobody
after_work work _ _ = none

-- On its way while the client takes it to be running, and no command is under way
abbrev alone : Option Cells → Client → Command → Option Cells
alone c running idle = c
alone c _ _ = none

unfoldable pub expected : Place → Client → Command → Option Cells
expected outside = alone (cells false false false true nobody)
expected locked = alone (cells false false false true thread)
expected marked = alone (cells true false false true thread)
expected reported = at_report
expected waiting = at_wait
expected woken = λ c d. either (awake false true c d) (awake false false c d)
expected working = awake true true
expected worked = after_work true
expected cleared = after_work false
expected leaving = awake false false
expected left = alone (cells true false false true thread)
expected unmarked = alone (cells false false false true thread)

abbrev pub same_owner : Owner → Owner → Bool
same_owner nobody nobody = true
same_owner thread thread = true
same_owner debugger debugger = true
same_owner _ _ = false

abbrev pub same_bool : Bool → Bool → Bool
same_bool true b = b
same_bool false b = not b

abbrev pub same_cells : Cells → Cells → Bool
same_cells c d =
    same_bool c.is_blocked d.is_blocked
    && (same_bool c.is_working d.is_working
        && (same_bool c.has_work d.has_work
            && (same_bool c.block_lock d.block_lock && same_owner c.starting_lock d.starting_lock)))

abbrev pub agrees : Option Cells → Cells → Bool
agrees none c = false
agrees (some d) c = same_cells d c

-- Nothing has failed, and the cells are those of the table.
unfoldable pub as_expected : State → Bool
unfolding expected
as_expected s = not s.failed && agrees (expected s.place s.client s.command) s.cells

unfoldable pub all_as_expected : List State → Bool
unfolding as_expected
all_as_expected [] = true
all_as_expected (s ∷ states) = as_expected s && all_as_expected states

abbrev pub moves_from : Place → Client → Command → Option Cells → List State
moves_from p c d none = []
moves_from p c d (some cs) =
    moves (record { place = p; client = c; command = d; cells = cs; failed = false })

-- The moves from every situation of the table lead to one of the table again.
unfoldable pub closed_at : Place → Client → Command → Bool
unfolding all_as_expected moves expected
closed_at p c d = all_as_expected (moves_from p c d (expected p c d))

abbrev pub all_commands : (Command → Bool) → Bool
all_commands f =
    f idle
    && (f asked_work
        && (f locked_work
            && (f tested_work
                && (f scheduled
                    && (f asked_resume && (f locked_resume && (f asked_thread && f releasing)))))))

abbrev pub all_clients : (Client → Bool) → Bool
all_clients f = f running && (f stopped && f evaluating)

abbrev pub all_places : (Place → Bool) → Bool
all_places f =
    f outside
    && (f locked
        && (f marked
            && (f reported
                && (f waiting
                    && (f woken
                        && (f working
                            && (f worked
                                && (f cleared && (f leaving && (f left && f unmarked))))))))))

pub closed : all_places (λ p. all_clients (λ c. all_commands (λ d. closed_at p c d))) ≡ true
unfolding closed_at all_as_expected as_expected expected moves block_from command_from client_from
    unblock schedule_work run_on_thread
closed = refl

-- Is the thread past its wait?
abbrev pub is_out : Place → Bool
is_out leaving = true
is_out left = true
is_out unmarked = true
is_out _ = false

-- Is the thread, or the command, between taking the lock and giving it back?
abbrev pub has_starting_lock : Place → Bool
has_starting_lock locked = true
has_starting_lock marked = true
has_starting_lock reported = true
has_starting_lock left = true
has_starting_lock unmarked = true
has_starting_lock _ = false

abbrev pub holds_starting_lock : Command → Bool
holds_starting_lock d = same_owner (holder d) debugger

abbrev pub is_running : Client → Bool
is_running running = true
is_running stopped = false
is_running evaluating = false

abbrev pub is_unanswered : Client → Command → Bool
is_unanswered evaluating idle = true
is_unanswered _ _ = false

-- The thread goes on although the client takes it to be stopped.
abbrev pub has_gone_on : Place → Client → Bool
has_gone_on p c = is_out p && not (is_running c)

-- An evaluation has no answer, and no work for it is there.
abbrev pub has_lost_work : Client → Command → Cells → Bool
has_lost_work c d cs = is_unanswered c d && not cs.has_work

-- Both are inside, or the lock is not with the thread that is.
abbrev pub is_shared : Place → Command → Owner → Bool
is_shared p d o = has_starting_lock p && (holds_starting_lock d || not (same_owner o thread))

abbrev pub is_sound : Place → Client → Command → Cells → Bool
is_sound p c d cs =
    not (has_gone_on p c) && (not (has_lost_work c d cs) && not (is_shared p d cs.starting_lock))

abbrev pub sound_of : Place → Client → Command → Option Cells → Bool
sound_of p c d none = true
sound_of p c d (some cs) = is_sound p c d cs

unfoldable pub sound_at : Place → Client → Command → Bool
unfolding expected
sound_at p c d = sound_of p c d (expected p c d)

pub sound : all_places (λ p. all_clients (λ c. all_commands (λ d. sound_at p c d))) ≡ true
unfolding sound_at expected
sound = refl
