-- ===== src/Debugger/Blocking/Safety.antt =====
-- What holds wherever the two threads come to.
use python_vscode.Prelude.{
  ℕ, zero, suc, ◌≡◌, refl, sym, ap, ◌∙◌, subst, Bool, true, false, not, ◌&&◌, Option, none, some,
  List, [], ◌∷◌, arith, get_elem?,
}
use python_vscode.Debugger.Blocking.{
  Place, outside, locked, marked, reported, waiting, woken, working, worked, cleared, leaving, left,
  unmarked, Command, idle, asked_work, locked_work, tested_work, scheduled, asked_resume,
  locked_resume, asked_thread, releasing, Client, running, stopped, evaluating, Owner, nobody,
  thread, debugger, Cells, State, moves, start,
}
use python_vscode.Debugger.Blocking.Table.{
  all_places, all_clients, all_commands, closed_at, closed, same_bool, same_owner, same_cells,
  agrees, expected, as_expected, all_as_expected, moves_from, is_sound, has_gone_on, has_lost_work,
  is_shared, sound_of, sound_at, sound,
}

-- The states that the moves lead to; `i` is the move that is made.
pub data Reach (s : State) : State → Type 0 where
  here : Reach s s
  next : {t u : State} (i : ℕ) → Reach s t → get_elem? (moves t) i ≡ some u → Reach s u

all_commands_lem : (f : Command → Bool) → all_commands f ≡ true → (d : Command) → f d ≡ true
all_commands_lem f h idle = ground arith
all_commands_lem f h asked_work = ground arith
all_commands_lem f h locked_work = ground arith
all_commands_lem f h tested_work = ground arith
all_commands_lem f h scheduled = ground arith
all_commands_lem f h asked_resume = ground arith
all_commands_lem f h locked_resume = ground arith
all_commands_lem f h asked_thread = ground arith
all_commands_lem f h releasing = ground arith

all_clients_lem : (f : Client → Bool) → all_clients f ≡ true → (c : Client) → f c ≡ true
all_clients_lem f h running = ground arith
all_clients_lem f h stopped = ground arith
all_clients_lem f h evaluating = ground arith

all_places_lem : (f : Place → Bool) → all_places f ≡ true → (p : Place) → f p ≡ true
all_places_lem f h outside = ground arith
all_places_lem f h locked = ground arith
all_places_lem f h marked = ground arith
all_places_lem f h reported = ground arith
all_places_lem f h waiting = ground arith
all_places_lem f h woken = ground arith
all_places_lem f h working = ground arith
all_places_lem f h worked = ground arith
all_places_lem f h cleared = ground arith
all_places_lem f h leaving = ground arith
all_places_lem f h left = ground arith
all_places_lem f h unmarked = ground arith

-- What is tested of every situation holds in each.
everywhere :
    (f : Place → Client → Command → Bool)
    → all_places (λ p. all_clients (λ c. all_commands (λ d. f p c d))) ≡ true
    → (p : Place) (c : Client) (d : Command) → f p c d ≡ true
everywhere f h p c d =
    all_commands_lem (λ d. f p c d)
      (all_clients_lem (λ c. all_commands (λ d. f p c d))
        (all_places_lem (λ p. all_clients (λ c. all_commands (λ d. f p c d))) h p) c)
      d

eq_of_same_bool : (a b : Bool) → same_bool a b ≡ true → a ≡ b
eq_of_same_bool true b h = sym h
eq_of_same_bool false b h = ground arith

eq_of_same_owner : (a b : Owner) → same_owner a b ≡ true → a ≡ b
eq_of_same_owner nobody nobody h = refl
eq_of_same_owner thread thread h = refl
eq_of_same_owner debugger debugger h = refl
eq_of_same_owner nobody thread h = cc
eq_of_same_owner nobody debugger h = cc
eq_of_same_owner thread nobody h = cc
eq_of_same_owner thread debugger h = cc
eq_of_same_owner debugger nobody h = cc
eq_of_same_owner debugger thread h = cc

eq_of_same_cells : (c d : Cells) → same_cells c d ≡ true → c ≡ d
eq_of_same_cells c d h = λ i. record {
  is_blocked = eq_of_same_bool c.is_blocked d.is_blocked (ground arith) i;
  is_working = eq_of_same_bool c.is_working d.is_working (ground arith) i;
  has_work = eq_of_same_bool c.has_work d.has_work (ground arith) i;
  block_lock = eq_of_same_bool c.block_lock d.block_lock (ground arith) i;
  starting_lock = eq_of_same_owner c.starting_lock d.starting_lock (ground arith) i;
}

eq_of_agrees : (o : Option Cells) (c : Cells) → agrees o c ≡ true → o ≡ some c
eq_of_agrees none c h = cc
eq_of_agrees (some d) c h = ap some (eq_of_same_cells d c h)

module _ (s : State) (h : as_expected s ≡ true) where
  cells-as_expected : expected s.place s.client s.command ≡ some s.cells
  unfolding as_expected
  cells-as_expected = eq_of_agrees (expected s.place s.client s.command) s.cells (ground arith)

  failed-as_expected : s.failed ≡ false
  unfolding as_expected
  failed-as_expected = ground arith

  moves-as_expected : all_as_expected (moves s) ≡ true
  moves-as_expected =
      let c : all_as_expected (moves_from s.place s.client s.command (some s.cells)) ≡ true =
        subst (λ o. all_as_expected (moves_from s.place s.client s.command o) ≡ true)
          cells-as_expected
          (unfold closed_at in everywhere closed_at closed s.place s.client s.command) in
      ap (λ b. all_as_expected (moves (record s { failed = b }))) failed-as_expected ∙ c

  sound-as_expected : is_sound s.place s.client s.command s.cells ≡ true
  sound-as_expected =
      subst (λ o. sound_of s.place s.client s.command o ≡ true) cells-as_expected
        (unfold sound_at in everywhere sound_at sound s.place s.client s.command)

get_elem-as_expected :
    (states : List State) (i : ℕ) (s : State)
    → all_as_expected states ≡ true
    → get_elem? states i ≡ some s
    → as_expected s ≡ true
unfolding all_as_expected
get_elem-as_expected [] i s h e = cc
get_elem-as_expected (t ∷ states) zero s h e =
    let q : t ≡ s = cc in
    let k : as_expected t ≡ true = ground arith in subst (λ u. as_expected u ≡ true) q k
get_elem-as_expected (t ∷ states) (suc i) s h e = get_elem-as_expected states i s (ground arith) e

Reach-as_expected : {s : State} → Reach start s → as_expected s ≡ true
unfolding as_expected expected
Reach-as_expected here = refl
Reach-as_expected {s} (next {t} i r e) =
    get_elem-as_expected (moves t) i s (moves-as_expected t (Reach-as_expected r)) e

-- The three parts of what is tested
sound_parts :
    (a b c : Bool) → (not a && (not b && not c)) ≡ true → (a ≡ false) × ((b ≡ false) × (c ≡ false))
sound_parts a b c h = (ground arith, (ground arith, ground arith))

-- Wherever a thread and the debugger come to from a thread that runs, move by move in any order, while the
-- client sends a command only to a thread that it takes to be stopped, and awaits its answer: no
-- assertion fails and no lock is released that nobody holds; the thread goes on past its wait only
-- after a command to resume it; an evaluation that is scheduled and not answered is not lost; and the
-- thread and the debugger are never both between taking and giving back `_block_starting_lock`.
pub Reach-is_sound :
    {s : State}
    → Reach start s
    → (s.failed ≡ false)
      × ((has_gone_on s.place s.client ≡ false)
          × ((has_lost_work s.client s.command s.cells ≡ false)
              × (is_shared s.place s.command s.cells.starting_lock ≡ false)))
Reach-is_sound {s} r =
    let e : as_expected s ≡ true = Reach-as_expected r in
    let k : is_sound s.place s.client s.command s.cells ≡ true = sound-as_expected s e in
    (
      failed-as_expected s e,
      sound_parts (has_gone_on s.place s.client) (has_lost_work s.client s.command s.cells)
          (is_shared s.place s.command s.cells.starting_lock) k,
    )
