-- ===== src/Repl/Commands.antt =====
-- The thread that receives commands: the `_cmd_` methods of the back ends, what they change, and
-- `_repl_loop`. A command is handled in one step; evaluating an expression is a parameter.
pub mod Received
pub mod Schedule
use python_vscode.Prelude.{
  ℕ, Text, Bool, true, false, not, ◌&&◌, Option, none, some, List, [], ◌∷◌, ◌++◌, if◌then◌else◌,
  same, codes,
}
use python_vscode.Prelude.Int.{ℤ}
use python_vscode.Debugger.Reports.{Field}
use python_vscode.Repl.Main.{
  Item, code_item, script_item, module_item, process_item, attach_item, exit_item,
}
use python_vscode.Repl.Members.{Members, members_result, members_error, ModuleName, modules_result}
use python_vscode.Repl.Signatures.{Signature, signatures_result, signatures_error}

-- A command with what it reads from the connection
pub data Command : Type 0 where
  run mems sigs setm inpl : Text → Command
  abrt exit mods : Command
  sett : ℤ → ℤ → ℤ → Command
  excf : Text → Text → Command
  excx : Text → Text → Text → Command
  dbga : ℤ → Text → Text → Command

-- `execute_item` stands for the method with `current_code` and `current_args`, which it reads as soon as it
-- is executed. A lock is held from the start on. `exec_mod` is the name of the module, or None for a frame.
pub record Backend : Type 0 where
  pub is_debugging : Bool
  pub execute_item : Option Item
  pub execute_item_lock : Bool
  pub input_string : Option Text
  pub input_event : Bool
  pub exit_requested : Bool
  pub disconnect_requested : Bool
  pub frame : Option (ℤ × ℤ × ℤ)
  pub exec_mod : Option Text

-- A back end as it is made, over a module
abbrev pub new_backend : Bool → Text → Backend
new_backend is_debugging mod_name = record {
  is_debugging = is_debugging;
  execute_item = none;
  execute_item_lock = true;
  input_string = none;
  input_event = true;
  exit_requested = false;
  disconnect_requested = false;
  frame = none;
  exec_mod = some mod_name;
}

-- What a handler does besides: a message, or an interrupt of the main thread
pub data Act : Type 0 where
  sends : List Field → Act
  interrupts : Act

-- `fails` is an exception, with the state that it leaves.
pub data Handled : Type 0 where
  goes_on fails : List Act → Backend → Handled

-- `execute_item_lock.release()`, which raises where the lock is not held
unfoldable pub released : Backend → Handled
released b =
    if b.execute_item_lock then goes_on [] (record b { execute_item_lock = false }) else fails [] b

-- `run_command`, `execute_file_ex` and `attach_process`
unfoldable pub execute : Option Item → Backend → Handled
unfolding released
execute item b = released (record b { execute_item = item })

-- `getattr(self, 'execute_%s_work_item' % filetype, None)`
unfoldable pub file_item : Text → Text → Text → Option Item
file_item filetype filename args =
    if same filetype (codes "script")
    then some (script_item filename args)
    else if same filetype (codes "module")
    then some (module_item filename args)
    else if same filetype (codes "process")
    then some (process_item filename args)
    else if same filetype (codes "code")
    then some (code_item filename)
    else none

-- `exit_process`, up to its `sys.exit`
unfoldable pub exit_process : Backend → Backend
exit_process b = record b { execute_item = some exit_item; execute_item_lock = false }

-- `BasicReplBackend.set_current_module`, where `known` tells the names in `sys.modules`, and that of
-- `DebugReplBackend`
unfoldable pub set_current_module : (Text → Bool) → Text → Backend → Backend
set_current_module known mod_name b =
    if b.is_debugging && same mod_name (codes "<CurrentFrame>")
    then record b { exec_mod = none }
    else if known mod_name
    then record b { exec_mod = some mod_name }
    else b

unfoldable pub input : Text → Backend → Handled
input line b =
    let b' : Backend = record b { input_string = some line } in
    if b.input_event then goes_on [] (record b' { input_event = false }) else fails [] b'

-- `disconnect_from_debugger`, which raises where the lock is not held
unfoldable pub disconnect_from_debugger : Backend → Handled
unfolding released
disconnect_from_debugger b = released (record b { disconnect_requested = true })

-- What is asked of the interpreter; none where it raises. `sort` is that of lists.
pub record Inspector : Type 0 where
  pub known : Text → Bool
  pub get_members : Backend → Text → Option Members
  pub get_signatures : Backend → Text → Option (List Signature)
  pub modules : Option (List ModuleName)
  pub sort : List ModuleName → List ModuleName

abbrev answer_of {ℓ} : {A : Type ℓ} → (A → List Field) → List Field → Option A → List Act
answer_of result error none = sends error ∷ []
answer_of result error (some a) = sends (result a) ∷ []

module _ (i : Inspector) where
  -- `_COMMANDS`. The base class has no `set_current_thread_and_frame`: it raises `NotImplementedError`.
  unfoldable pub handle : Command → Backend → Handled
  unfolding execute exit_process set_current_module input file_item
  handle (run code) b = execute (some (code_item code)) b
  handle abrt b = goes_on (interrupts ∷ []) b
  handle exit b = fails [] (exit_process (record b { exit_requested = true }))
  handle (mems e) b = goes_on (answer_of members_result members_error (i.get_members b e)) b
  handle (sigs e) b =
      goes_on (answer_of signatures_result signatures_error (i.get_signatures b e)) b
  handle mods b = goes_on (sends (modules_result i.sort i.modules) ∷ []) b
  handle (setm mod_name) b = goes_on [] (set_current_module i.known mod_name b)
  handle (sett t f k) b =
      if b.is_debugging
      then goes_on [] (record b { frame = some (t, f, k); exec_mod = none })
      else fails [] b
  handle (inpl line) b = input line b
  handle (excf filename args) b = execute (some (script_item filename args)) b
  handle (excx filetype filename args) b = execute (file_item filetype filename args) b
  handle (dbga port id options) b = execute (some attach_item) b

  -- The handler of the loop for what a command raises; it raises `SystemExit`, which ends the thread.
  unfoldable pub handle_or_exit : Command → Backend → Handled
  unfolding handle exit_process
  handle_or_exit c b = elim (handle c b) [
    | goes_on acts b' ↦ goes_on acts b'
    | fails acts b' ↦ fails acts (exit_process b')
  ]

  abbrev pub after : List Act → Handled → Handled
  after acts (goes_on more b) = goes_on (acts ++ more) b
  after acts (fails more b) = fails (acts ++ more) b

  -- `_repl_loop` over the commands that come
  unfoldable pub repl_loop : List Command → Backend → Handled
  unfolding handle_or_exit
  repl_loop [] b = goes_on [] b
  repl_loop (c ∷ commands) b = elim (b.disconnect_requested) [
    | true ↦ goes_on [] b
    | false ↦ elim (handle_or_exit c b) [
      | goes_on acts b' ↦ after acts (repl_loop commands b')
      | fails acts b' ↦ fails acts b'
    ]
  ]
