-- ===== src/Repl/Main.antt =====
-- The thread that executes: `run_one_command` and `execution_loop`. What executing does is a parameter; sending
-- never fails, and no interrupt comes but in an item.
pub mod Answered
pub mod Shown
use python_vscode.Prelude.{
  ℕ, zero, suc, ◌+◌, Text, Bool, true, false, not, ◌&&◌, ◌||◌, Option, none, some, List, [], ◌∷◌,
  ◌++◌, if◌then◌else◌, same, codes,
}
use python_vscode.Debugger.Reports.{Field}
use python_vscode.Repl.Messages.{
  send_prompt, send_cwd, send_error, send_exit, send_command_executed, send_modules_changed,
  write_stderr,
}

-- `execute_item`: a snippet, a file, a module or a program with its arguments, an attaching debugger, or
-- `exit_work_item`
pub data Item : Type 0 where
  code_item : Text → Item
  script_item module_item process_item : Text → Text → Item
  attach_item exit_item : Item

-- What a command may change that the loop looks at: the names in `sys.modules`, sorted, the two prompts, none
-- where they are deleted, and the working directory.
pub record Session : Type 0 where
  pub modules : List Text
  pub ps1 : Option Text
  pub ps2 : Option Text
  pub cwd : Text

-- How a work item ends; an exception comes as the text that is printed of it.
pub data Ending : Type 0 where
  returned system_exit : Ending
  raised : Text → Ending

-- Executing an item
abbrev pub Executor : Type 0
Executor = Item → Session → Ending × Session

-- What the loop remembers
pub record Main : Type 0 where
  pub cur_modules : List Text
  pub cur_ps1 : Text
  pub cur_ps2 : Text

pub data Message : Type 0 where
  prompt : Text → Text → Message
  directory errors : Text → Message
  executed failed exited modules_changed : Message

unfoldable pub message_fields : Message → List Field
message_fields (prompt ps1 ps2) = send_prompt ps1 ps2 false
message_fields (directory cwd) = send_cwd cwd
message_fields (errors value) = write_stderr value
message_fields executed = send_command_executed
message_fields failed = send_error
message_fields exited = send_exit
message_fields modules_changed = send_modules_changed

abbrev pub same_names : List Text → List Text → Bool
same_names [] [] = true
same_names [] (_ ∷ _) = false
same_names (_ ∷ _) [] = false
same_names (a ∷ rest) (b ∷ others) = same a b && same_names rest others

-- What one turn sends, whether it ends the loop, and what it leaves
pub record Turn : Type 0 where
  pub sent : List Message
  pub is_exit : Bool
  pub main : Main
  pub session : Session

-- The prompts that are sent where one has changed, and what the loop remembers of them; nothing where one is
-- deleted.
unfoldable pub prompts : Option Text → Option Text → Main → List Message × Main
prompts (some ps1) (some ps2) m =
    if not (same m.cur_ps1 ps1) || not (same m.cur_ps2 ps2)
    then (prompt ps1 ps2 ∷ [], record m { cur_ps1 = ps1; cur_ps2 = ps2 })
    else ([], m)
prompts _ _ m = ([], m)

unfoldable pub directories : Text → Text → List Message
directories before after = if same before after then [] else directory after ∷ []

-- The message that comes before the item
abbrev pub noticed : List Text → Main → List Message
noticed modules m = if same_names modules m.cur_modules then [] else modules_changed ∷ []

-- After the item, as it has ended
unfoldable pub after_item : Text → Ending → Session → Main → Turn
unfolding prompts directories
after_item cwd returned s m =
    let (prompted, m') = prompts s.ps1 s.ps2 m in
    record {
      sent = executed ∷ (prompted ++ directories cwd s.cwd);
      is_exit = false;
      main = m';
      session = s;
    }
after_item cwd system_exit s m = record {
  sent = failed ∷ exited ∷ [];
  is_exit = true;
  main = m;
  session = s;
}
after_item cwd (raised text) s m = record {
  sent = errors text ∷ failed ∷ [];
  is_exit = false;
  main = m;
  session = s;
}

-- The messages of a turn, and of the turns after it if it does not end the loop
abbrev pub next_turn : Turn → List Message × Session → List Message × Session
next_turn turn (sent, s) =
    if turn.is_exit then (turn.sent, turn.session) else (turn.sent ++ sent, s)

abbrev pub or_text : Option Text → Text → Text
or_text none t = t
or_text (some p) t = p

module _ (executor : Executor) where
  -- An item that is None does nothing.
  abbrev pub execute : Option Item → Session → Ending × Session
  execute none s = (returned, s)
  execute (some item) s = executor item s

  -- One turn, once `execute_item_lock` is taken; `s` is the session at its start and `s'` when the lock is
  -- taken, between which other threads may run.
  unfoldable pub run_one_command : Bool → Option Item → Session → Session → Main → Turn
  unfolding after_item
  run_one_command disconnecting item s s' m =
      let m' : Main = record m { cur_modules = s.modules } in
      let (ending, s'') = execute item s' in
      let turn : Turn = after_item s'.cwd ending s'' m' in
      if disconnecting
      then record { sent = noticed s.modules m; is_exit = true; main = m'; session = s' }
      else record turn { sent = noticed s.modules m ++ turn.sent }

  -- The loop over the items that come; between two of them nothing changes the session.
  unfoldable pub run_items : List (Option Item) → Session → Main → List Message × Session
  unfolding run_one_command
  run_items [] s m = ([], s)
  run_items (item ∷ items) s m =
      let turn : Turn = run_one_command false item s s m in
      next_turn turn (run_items items turn.session turn.main)

  -- `execution_loop`, with the prompts that are set where one is missing
  unfoldable pub execution_loop : List (Option Item) → Session → List Message × Session
  unfolding run_items
  execution_loop items s =
      let both : Bool = elim s.ps1 [
        | none ↦ false
        | some p ↦ elim s.ps2 [ none ↦ false | some q ↦ true ]
      ] in
      let ps1 : Text = if both then or_text s.ps1 [] else codes ">>> " in
      let ps2 : Text = if both then or_text s.ps2 [] else codes "... " in
      let (sent, last) =
        run_items items (record s { ps1 = some ps1; ps2 = some ps2 })
          (record { cur_modules = []; cur_ps1 = ps1; cur_ps2 = ps2 }) in
      (prompt ps1 ps2 ∷ sent, last)
