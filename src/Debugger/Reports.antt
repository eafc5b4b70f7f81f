-- ===== src/Debugger/Reports.antt =====
-- The messages to the client: the `report_` functions, `write_object` and `send_frame_list`, as the fields
-- that they write to the connection one after the other, inside of `_SendLockCtx`.
pub mod Received
pub mod Parsed
pub mod Raised
use python_vscode.Prelude.{
  ℕ, zero, suc, ◌+◌, Text, Bool, true, false, not, ◌&&◌, ◌||◌, Option, none, some, List, [], ◌∷◌,
  ◌++◌, ◌==◌, if◌then◌else◌, codes, length, map,
}
use python_vscode.Prelude.Int.{ℤ, pos}
use python_vscode.Prelude.Dict.{Dict}
use python_vscode.Wire.{
  Conn, Outcome, done, PyString, null, unicode, write_bytes, write_int, write_string, ◌>>=◌,
}
use python_vscode.Debugger.Frames.{FrameInfo}

-- A call of `write_bytes`, `write_int` or `write_string`
pub data Field : Type 0 where
  raw : Text → Field
  int : ℤ → Field
  string : PyString → Field

unfoldable pub send : List Field → Conn → Outcome Unit
send [] c = done tt c
send (raw b ∷ fields) c = send fields (write_bytes b c)
send (int i ∷ fields) c = write_int i c >>= λ _ c'. send fields c'
send (string s ∷ fields) c = write_string s c >>= λ _ c'. send fields c'

abbrev number : ℕ → Field
number n = int (pos n)

abbrev pub text : Text → Field
text s = string (unicode s)

-- A text, or None
abbrev pub text_or_none : Option Text → Field
text_or_none none = string null
text_or_none (some s) = text s

unfoldable pub report_new_thread : ℕ → List Field
report_new_thread id = raw (codes "NEWT") ∷ number id ∷ []

unfoldable pub report_thread_exit : ℕ → List Field
report_thread_exit id = raw (codes "EXTT") ∷ number id ∷ []

-- The messages for all threads, by their ids
unfoldable pub report_all_threads : List ℕ → List Field
unfolding report_new_thread
report_all_threads [] = []
report_all_threads (id ∷ ids) = report_new_thread id ++ report_all_threads ids

unfoldable pub report_module_load : ℕ → Text → List Field
report_module_load id filename = raw (codes "MODL") ∷ number id ∷ text filename ∷ []

unfoldable pub report_step_finished : ℕ → List Field
report_step_finished id = raw (codes "STPD") ∷ number id ∷ []

unfoldable pub report_breakpoint_bound : ℕ → List Field
report_breakpoint_bound id = raw (codes "BRKS") ∷ number id ∷ []

unfoldable pub report_breakpoint_failed : ℕ → List Field
report_breakpoint_failed id = raw (codes "BRKF") ∷ number id ∷ []

unfoldable pub report_breakpoint_hit : ℕ → ℕ → List Field
report_breakpoint_hit id thread = raw (codes "BRKH") ∷ number id ∷ number thread ∷ []

unfoldable pub report_process_loaded : ℕ → List Field
report_process_loaded id = raw (codes "LOAD") ∷ number id ∷ []

unfoldable pub report_execution_error : Text → ℕ → List Field
report_execution_error message execution = raw (codes "EXCE") ∷ number execution ∷ text message ∷ []

-- The name and the text of an exception, where both can be had
unfoldable pub report_execution_exception : ℕ → Option (Text × Text) → List Field
unfolding report_execution_error
report_execution_exception execution none =
    report_execution_error (codes "An exception was thrown") execution
report_execution_exception execution (some (name, value)) =
    report_execution_error (name ++ (codes ": " ++ value)) execution

-- The five bits of an evaluation result
pub record Flags : Type 0 where
  pub expandable : Bool
  pub method_call : Bool
  pub side_effects : Bool
  pub raw_repr : Bool
  pub has_raw_repr : Bool

abbrev pub no_flags : Flags
no_flags = record {
  expandable = false;
  method_call = false;
  side_effects = false;
  raw_repr = false;
  has_raw_repr = false;
}

abbrev pub bit : Bool → ℕ → ℕ
bit true n = n
bit false n = 0

abbrev pub flags_number : Flags → ℕ
flags_number f =
    bit f.expandable 1
    + (bit f.method_call 2 + (bit f.side_effects 4 + (bit f.raw_repr 8 + bit f.has_raw_repr 16)))

-- What is asked of an object: its repr, that in base 16, its length, and its type: is it that of a synthesized
-- value, one of NONEXPANDABLE_TYPES, a subclass of one of TYPES_WITH_RAW_REPR, and its name.
pub record Shown : Type 0 where
  pub repr : Option Text
  pub hex_repr : Option Text
  pub len : Option ℕ
  pub is_synthesized : Bool
  pub is_nonexpandable : Bool
  pub is_raw_type : Bool
  pub type_name : Text

abbrev pub is_zero : Option ℕ → Bool
is_zero none = false
is_zero (some n) = n == 0

abbrev pub or_zero : Option ℕ → ℕ
or_zero none = 0
or_zero (some n) = n

unfoldable pub write_object : Flags → Shown → List Field
write_object f o =
    text_or_none o.repr
    ∷ text_or_none o.hex_repr
    ∷ text (if o.is_synthesized then [] else o.type_name)
    ∷ number (or_zero o.len)
    ∷ number (
        flags_number (record f {
          expandable = f.expandable || (not o.is_nonexpandable && not (is_zero o.len));
          has_raw_repr = f.has_raw_repr || o.is_raw_type;
        }))
    ∷ []

-- With the repr of the kind REPR_KIND_NORMAL
unfoldable pub report_execution_result : ℕ → Shown → List Field
unfolding write_object
report_execution_result execution o =
    raw (codes "EXCR") ∷ number execution ∷ write_object no_flags o

-- A child's name, its expression if it has one, its flags and its object
abbrev pub Child : Type 0
Child = Text × Option Text × Flags × Shown

unfoldable pub children_fields : List Child → List Field
unfolding write_object
children_fields [] = []
children_fields ((name, expression, flags, o) ∷ children) =
    text name ∷ text_or_none expression ∷ (write_object flags o ++ children_fields children)

unfoldable pub report_children : ℕ → List Child → List Field
unfolding children_fields
report_children execution children =
    raw (codes "CHLD") ∷ number execution ∷ number (length children) ∷ children_fields children

module _ {A : Type 0} (describe : Option A → Shown) where
  unfoldable pub variables_fields : Dict Text (Option A) → List Field
  unfolding write_object
  variables_fields [] = []
  variables_fields ((name, object) ∷ variables) =
      text name ∷ (write_object no_flags (describe object) ++ variables_fields variables)

  -- A frame of the kind FRAME_KIND_PYTHON
  unfoldable pub frame_fields : FrameInfo A → List Field
  unfolding variables_fields
  frame_fields f =
      number f.first_line
      ∷ int f.last_line
      ∷ number f.line
      ∷ text f.name
      ∷ text f.filename
      ∷ number f.arg_count
      ∷ number 1
      ∷ number (length f.variables)
      ∷ variables_fields f.variables

  abbrev pub frames_fields : List (FrameInfo A) → List Field
  frames_fields [] = []
  frames_fields (f ∷ frames) = frame_fields f ++ frames_fields frames

  unfoldable pub send_frame_list : ℕ → Option Text → List (FrameInfo A) → List Field
  unfolding frame_fields
  send_frame_list id thread_name frames =
      raw (codes "THRF")
      ∷ number id
      ∷ text_or_none thread_name
      ∷ number (length frames)
      ∷ frames_fields frames
