-- ===== src/TestLauncher.antt =====
-- The runner of unit tests (pythonFiles/PythonTools/visualstudio_py_testlauncher.py): the events that it
-- sends, and the tests that it picks out of those that `discover` finds.
pub mod Picked
pub mod Numbered
mod Tests
use python_vscode.Prelude.{
  ℕ, zero, suc, Text, Bool, true, false, Option, none, some, List, [], ◌∷◌, ◌++◌, if◌then◌else◌,
  same, codes,
}
use python_vscode.Prelude.Texts.{starts_with}
use python_vscode.Prelude.Options.{◌>>=◌}

-- The arguments of `send_event`. A result has its outcome, and the traceback and the message if there is one.
pub data Event : Type 0 where
  started : Text → Event
  result : Text → Option (Text × Text) → Text → Event
  output : Bool → Text → Event
  finished : Event

-- `_channel` and what was sent to it, each event with its number; none is no channel.
pub record Channel : Type 0 where
  pub seq : ℕ
  pub sent : List (ℕ × Event)

abbrev pub new_channel : Channel
new_channel = record { seq = 0; sent = [] }

unfoldable pub send_event : Event → Channel → Channel
send_event e c = record { seq = suc c.seq; sent = c.sent ++ (c.seq, e) ∷ [] }

abbrev pub on_channel : Event → Option Channel → Option Channel
on_channel e none = none
on_channel e (some c) = some (send_event e c)

-- The traceback without its first line, the message, and what `traceback.print_exc()` writes
pub record Trace : Type 0 where
  pub formatted : Text
  pub message : Text
  pub printed : List Text

-- What unittest tells the result object, of a test and with the traceback and the message of an exception,
-- and what a test or unittest itself writes to the standard output, or to the standard error
pub data Report : Type 0 where
  start_test add_success add_unexpected_success : Text → Report
  add_skip : Text → Report
  write : Bool → Text → Report
  add_error add_failure add_expected_failure : Text → Trace → Report

-- Texts that are written to the standard error, each an event
unfoldable pub write_errors : List Text → Channel → Channel
unfolding send_event
write_errors [] c = c
write_errors (t ∷ texts) c = write_errors texts (send_event (output false t) c)

unfoldable pub send_result : Text → Text → Option Trace → Option Channel → Option Channel
unfolding send_event write_errors
send_result test outcome trace none = none
send_result test outcome none (some c) = some (send_event (result outcome none test) c)
send_result test outcome (some t) (some c) =
    some
      (send_event (result outcome (some (t.formatted, t.message)) test) (write_errors t.printed c))

-- The methods of `VsTestResult`, and `write` of the outputs
unfoldable pub handle : Report → Option Channel → Option Channel
unfolding send_result
handle (start_test test) = on_channel (started test)
handle (write is_stdout text) = on_channel (output is_stdout text)
handle (add_success test) = send_result test (codes "passed") none
handle (add_unexpected_success test) = send_result test (codes "passed") none
handle (add_skip test) = send_result test (codes "skipped") none
handle (add_error test err) = send_result test (codes "error") (some err)
handle (add_failure test err) = send_result test (codes "failed") (some err)
handle (add_expected_failure test err) = send_result test (codes "failed") (some err)

unfoldable pub handle_all : List Report → Option Channel → Option Channel
unfolding handle
handle_all [] c = c
handle_all (r ∷ reports) c = handle_all reports (handle r c)

-- A run: the tests, and then the event `done` of the `finally`
unfoldable pub run : List Report → Option Channel → Option Channel
unfolding handle_all
run reports c = on_channel finished (handle_all reports c)

-- A class of tests by their ids, or what has no `_tests`, as the loader makes of a file that it cannot import
pub data TestClass : Type 0 where
  methods : List Text → TestClass
  no_tests : TestClass

-- What is run: all that was found, one test, a class, or the suite of a file
pub data Selected : Type 0 where
  everything : List (List TestClass) → Selected
  method : Text → Selected
  class : List Text → Selected
  file : List TestClass → Selected

-- `suite` and `tests`
pub record Choice : Type 0 where
  pub suite : Option Selected
  pub tests : Option Selected

-- The innermost loop, over the tests of the class `all`; it breaks at the test with the id.
unfoldable pub pick_method : Text → List Text → List Text → Choice → Choice
pick_method wanted all [] c = c
pick_method wanted all (id ∷ ids) c =
    let c' : Choice = if starts_with wanted id then record c { suite = some (class all) } else c in
    let rest = pick_method wanted all ids c' in
    if same id wanted then record c' { tests = some (method id) } else rest

-- `none` is the TypeError of `traceback.format_exception()` in the handler.
unfoldable pub pick_class : Text → List TestClass → Choice → Option Choice
unfolding pick_method
pick_class wanted [] c = some c
pick_class wanted (no_tests ∷ classes) c = none
pick_class wanted (methods ids ∷ classes) c =
    pick_class wanted classes (pick_method wanted ids ids c)

unfoldable pub pick_file : Text → List (List TestClass) → Choice → Option Choice
unfolding pick_class
pick_file wanted [] c = some c
pick_file wanted (classes ∷ files) c =
    pick_class wanted classes (record c { suite = some (file classes) }) >>= λ c'.
    pick_file wanted files c'

abbrev pub chosen : Choice → Option Selected
chosen c = elim c.tests [ some t ↦ some t | none ↦ c.suite ]

-- The tests to run of a file, of which one name may be asked for; the inner none is that no test is found.
unfoldable pub select : Option Text → List (List TestClass) → Option (Option Selected)
unfolding pick_file
select none files = some (some (everything files))
select (some wanted) files =
    pick_file wanted files (record { suite = none; tests = none }) >>= λ c. some (chosen c)
