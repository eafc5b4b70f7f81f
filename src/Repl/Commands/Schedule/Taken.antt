-- ===== src/Repl/Commands/Schedule/Taken.antt =====
-- What is executed of the work that is given.
use python_vscode.Prelude.{
  Bool, true, false, Option, none, some, List, [], ◌∷◌, ◌++◌, if◌then◌else◌, ◌≡◌, refl, arith, ap,
  Bool-cases, inl, inr,
}
use python_vscode.Repl.Main.{Item, code_item, script_item, attach_item, returned}
use python_vscode.Repl.Commands.{
  Command, run, setm, inpl, exit, sett, excf, excx, dbga, Inspector, execute, released, handle,
  file_item, set_current_module,
}
use python_vscode.Repl.Commands.Schedule.{
  Phase, waiting, executing, System, Event, receives, takes, ends, next_phase, step, run_events,
}
use python_vscode.Repl.Commands.Schedule.Ended.{is_work}

-- The item of a phase
abbrev pub item_in : Phase → List (Option Item)
item_in (executing item) = item ∷ []
item_in _ = []

-- The item that is taken by a step, if one is
abbrev pub taken_by : Event → Option System → List (Option Item)
taken_by takes (some t) = item_in t.phase
taken_by _ _ = []

-- Waiting for work, which nothing has given
abbrev pub IsIdle : System → Type 0
IsIdle s =
    (s.is_receiving ≡ true)
    × (s.phase ≡ waiting)
    × (s.backend.execute_item_lock ≡ true)
    × (s.backend.disconnect_requested ≡ false)

-- The item of a command that gives work
abbrev pub item_of : Command → Option Item
item_of (run code) = some (code_item code)
item_of (excf filename args) = some (script_item filename args)
item_of (excx filetype filename args) = file_item filetype filename args
item_of (dbga _ _ _) = some attach_item
item_of _ = none

abbrev pub work : Command → List (Option Item)
work c = if is_work c then item_of c ∷ [] else []

-- A client that waits for the answer to what it gives to execute
abbrev pub answered : List Command → List Event
answered [] = []
answered (c ∷ commands) =
    if is_work c
    then receives c ∷ takes ∷ ends returned ∷ answered commands
    else receives c ∷ answered commands

abbrev pub all_work : List Command → List (Option Item)
all_work [] = []
all_work (c ∷ commands) = work c ++ all_work commands

-- The commands that such a client may send: all but `exit`, a line of input that nothing reads, and the frame
-- of a back end without a debugger
abbrev pub is_modest : Bool → Command → Bool
is_modest is_debugging exit = false
is_modest is_debugging (inpl _) = false
is_modest is_debugging (sett _ _ _) = is_debugging
is_modest is_debugging _ = true

abbrev pub AreModest : Bool → List Command → Type 0
AreModest is_debugging [] = Unit
AreModest is_debugging (c ∷ commands) =
    (is_modest is_debugging c ≡ true) × AreModest is_debugging commands

module _ (i : Inspector) where
  -- The items that the steps take, one after the other
  abbrev pub taken : List Event → System → List (Option Item)
  taken [] s = []
  taken (e ∷ events) s =
      taken_by e (step i e s) ++ elim (step i e s) [ none ↦ [] | some t ↦ taken events t ]

  given : Option Item → System → System
  given item s = record s {
    backend = record s.backend { execute_item = item; execute_item_lock = false };
  }

  busy : Option Item → System → System
  busy item s = record s {
    backend = record s.backend { execute_item = item; execute_item_lock = true };
    phase = executing item;
  }

  rested : System → System
  rested s = record s {
    backend = record s.backend { execute_item = none; execute_item_lock = true };
  }

  is_debugging-rested : (s : System) → (rested s).backend.is_debugging ≡ s.backend.is_debugging
  unfolding rested
  is_debugging-rested s = refl

  phase-busy : (item : Option Item) (s : System) → (busy item s).phase ≡ executing item
  unfolding busy
  phase-busy item s = refl

  receives-given :
      (c : Command) (s : System)
      → is_work c ≡ true
      → IsIdle s
      → step i (receives c) s ≡ some (given (item_of c) s)
  unfolding step handle execute released given
  receives-given (run code) s w h = rw (h.0, h.2) refl
  receives-given (excf filename args) s w h = rw (h.0, h.2) refl
  receives-given (excx filetype filename args) s w h = rw (h.0, h.2) refl
  receives-given (dbga port id options) s w h = rw (h.0, h.2) refl
  receives-given c s w h = cc

  takes-busy :
      (item : Option Item) (s : System)
      → IsIdle s
      → step i takes (given item s) ≡ some (busy item s)
  unfolding step given busy
  takes-busy item s h = rw (h.1, h.3) refl

  ends-rested :
      (item : Option Item) (s : System)
      → IsIdle s
      → next_phase item returned ≡ some waiting
      → step i (ends returned) (busy item s) ≡ some (rested s)
  unfolding step busy rested
  ends-rested item s h e = rw (e, h.1) refl

  next_phase-item_of : (c : Command) → next_phase (item_of c) returned ≡ some waiting
  unfolding file_item
  next_phase-item_of c = ground arith

  rested-IsIdle : (s : System) → IsIdle s → IsIdle (rested s)
  unfolding rested
  rested-IsIdle s h = (h.0, h.1, refl, h.3)

  -- What a command does that gives no work and does not end the loop
  settled : Command → System → System
  settled (setm mod_name) s = record s { backend = set_current_module i.known mod_name s.backend }
  settled (sett t f k) s = record s {
    backend = record s.backend { frame = some (t, f, k); exec_mod = none };
  }
  settled c s = s

  settled-IsIdle : (c : Command) (s : System) → IsIdle s → IsIdle (settled c s)
  unfolding settled set_current_module
  settled-IsIdle c s h = ground arith

  is_debugging-settled :
      (c : Command) (s : System) → (settled c s).backend.is_debugging ≡ s.backend.is_debugging
  unfolding settled set_current_module
  is_debugging-settled c s = ground arith

  receives-settled :
      (c : Command) (s : System)
      → is_work c ≡ false
      → is_modest s.backend.is_debugging c ≡ true
      → IsIdle s
      → step i (receives c) s ≡ some (settled c s)
  unfolding step handle settled
  receives-settled c s w m h = ground arith

  -- To a client that waits for the answer to what it gives to execute, every work is taken, in order, and
  -- nothing else is: its steps can all be taken, from the idle back end, if each item returns, and they leave
  -- it idle.
  pub taken-answered :
      (commands : List Command) (s : System)
      → AreModest s.backend.is_debugging commands
      → IsIdle s
      → (taken (answered commands) s ≡ all_work commands)
        × ((t : System) × (run_events i (answered commands) s ≡ some t) × IsIdle t)
  unfolding run_events
  taken-answered [] s m h = (refl, (s, refl, h))
  taken-answered (c ∷ commands) s m h = elim (Bool-cases (is_work c)) [
    | inl w ↦
        let (r, found) =
          taken-answered commands (rested s) (rw (is_debugging-rested s) m.1) (rested-IsIdle s h) in
        let item = item_of c in
        rw (w, receives-given c s w h)
          (rw (takes-busy item s h) (
            rw (ends-rested item s h (next_phase-item_of c), phase-busy item s)
              (ap (λ l. item ∷ l) r, found)))
    | inr w ↦
        let (r, found) =
          taken-answered commands (settled c s) (rw (is_debugging-settled c s) m.1)
            (settled-IsIdle c s h) in
        rw (w, receives-settled c s w m.0 h) (r, found)
  ]
