-- ===== src/Debugger/Exceptions.antt =====
-- `ExceptionBreakInfo` and the commands that fill it (pythonFiles/PythonTools/visualstudio_py_debugger.py):
-- on which exceptions the debugger stops. A reply to REQH is a parameter: the handlers that
-- `command_set_exception_handler_info` stores for the file, or none if it fails. File names are
-- those that `path.normcase` returns.
pub mod Handled
pub mod Requests
pub mod Modes
use python_vscode.Prelude.{
  ℕ, zero, suc, ◌+◌, ◌-◌, ◌*◌, ◌/◌, ◌%◌, Text, Bool, true, false, not, ◌&&◌, ◌||◌, Option, none,
  some, List, [], ◌∷◌, ◌++◌, ltb, leb, ◌==◌, if◌then◌else◌, length, take, drop, codes, any, same,
  text_eq,
}
use python_vscode.Prelude.Dict.{Dict, lookup, insert}

-- BREAK_MODE_NEVER is 0, BREAK_MODE_ALWAYS the bit 1 and BREAK_MODE_UNHANDLED the bit 32.
abbrev pub break_mode_never : ℕ
break_mode_never = 0

abbrev pub break_mode_unhandled : ℕ
break_mode_unhandled = 32

abbrev pub breaks_always : ℕ → Bool
breaks_always mode = mode % 2 == 1

abbrev pub breaks_unhandled : ℕ → Bool
breaks_unhandled mode = mode / 32 % 2 == 1

-- BREAK_TYPE_NONE, BREAK_TYPE_UNHANDLED and BREAK_TYPE_HANDLED
pub data BreakType : Type 0 where
  no_break unhandled handled : BreakType

-- An entry of `handlers`; a `try` of BUILT_IN_HANDLERS has no lines.
pub record Handler : Type 0 where
  pub lines : Option (ℕ × ℕ)
  pub expressions : List Text

abbrev pub Cache : Type 0
Cache = Dict Text (List Handler)

pub record ExceptionBreakInfo : Type 0 where
  pub default_mode : ℕ
  pub break_on : Dict Text ℕ
  pub handler_cache : Cache

-- What the search for handlers asks of a frame: `should_send_frame`, the name of its file if it has
-- code and that has one, `is_file_in_zip`, is it this file, the line, and does an expression, looked
-- up in the frame, name a base class of the exception?
pub record TraceFrame : Type 0 where
  pub should_send : Bool
  pub filename : Option Text
  pub in_zip : Bool
  pub own : Bool
  pub lineno : ℕ
  pub catches : Text → Bool

-- A traceback: should the next frame be sent and debugged, if there is one; and `tb_frame` with those
-- that called it.
pub record Traceback : Type 0 where
  pub next_debugged : Bool
  pub frames : List TraceFrame

abbrev in_lines : Option (ℕ × ℕ) → ℕ → Bool
in_lines none line = true
in_lines (some (line_start, line_end)) line = leb line_start line && ltb line line_end

unfoldable pub handler_catches : TraceFrame → Handler → Bool
handler_catches f h =
    in_lines h.lines f.lineno
    && (any (same (codes "*")) h.expressions || any f.catches h.expressions)

-- What `is_handled` returns, the handlers it then knows, and the files it asked for.
pub record Search : Type 0 where
  pub is_handled : Bool
  pub cache : Cache
  pub requests : List Text

module _ (reply : Text → Option (List Handler)) where
  -- `handler_cache` when the reply for a file has come
  abbrev pub after_reply : Text → Option (List Handler) → Cache → Cache
  after_reply name none cache = cache
  after_reply name (some handlers) cache = insert name handlers cache

  abbrev pub request : Text → Option (List Handler) → Cache → Cache
  request name (some handlers) cache = cache
  request name none cache = after_reply name (reply name) cache

  abbrev pub requested : Text → Option (List Handler) → List Text
  requested name (some handlers) = []
  requested name none = name ∷ []

  -- The handlers of a file against the exception; `rest` is the search in the frames above.
  abbrev pub search_file :
      TraceFrame → Option (List Handler) → Cache → List Text → (Cache → Search) → Search
  search_file f none cache asked rest = record {
    is_handled = false;
    cache = cache;
    requests = asked;
  }
  search_file f (some handlers) cache asked rest =
      let above : Search = rest cache in
      if any (handler_catches f) handlers
      then record { is_handled = true; cache = cache; requests = asked }
      else record {
        is_handled = above.is_handled;
        cache = above.cache;
        requests = asked ++ above.requests;
      }

  -- The body of the loop for a frame that has a file.
  unfoldable pub search_named : TraceFrame → Option Text → Cache → (Cache → Search) → Search
  search_named f none cache rest = record { is_handled = false; cache = cache; requests = [] }
  search_named f (some name) cache rest =
      let found : Option (List Handler) = lookup name cache in
      let filled : Cache = request name found cache in
      if f.in_zip
      then record { is_handled = true; cache = cache; requests = [] }
      else if f.own
      then rest cache
      else search_file f (lookup name filled) filled (requested name found) rest

  -- The `while` loop
  unfoldable pub search_frames : List TraceFrame → Cache → Search
  unfolding search_named
  search_frames [] cache = record { is_handled = false; cache = cache; requests = [] }
  search_frames (f ∷ fs) cache =
      let searched : Search = search_named f f.filename cache (search_frames fs) in
      if f.should_send
      then searched
      else record { is_handled = false; cache = cache; requests = [] }

  unfoldable pub is_handled : Option Traceback → Cache → Search
  unfolding search_frames
  is_handled none cache = record { is_handled = false; cache = cache; requests = [] }
  is_handled (some trace) cache =
      if trace.next_debugged
      then record { is_handled = true; cache = cache; requests = [] }
      else search_frames trace.frames cache

-- What `should_break` asks of the exception: `get_exception_name` and `issubclass(ex_type,
-- SystemExit)` of its type, and is it without a value, or is the value a SystemExit whose code is
-- false?
pub record Raised : Type 0 where
  pub module_name : Text
  pub name : Text
  pub system_exit : Bool
  pub zero_exit : Bool

-- `_EXCEPTIONS_MODULE` of Python 3
abbrev pub exceptions_module : Text
exceptions_module = codes "builtins"

unfoldable pub get_exception_name : Text → Text → Text
get_exception_name module_name name =
    if same module_name exceptions_module then name else module_name ++ (codes "." ++ name)

-- `self.break_on.get(name, self.default_mode)`
abbrev pub or_default : Option ℕ → ℕ → ℕ
or_default none mode = mode
or_default (some m) mode = m

-- The type by the mode, and then the exits that do not count (BREAK_ON_SYSTEMEXIT_ZERO is a
-- parameter).
abbrev pub break_type : ℕ → Bool → BreakType
break_type mode is_handled =
    if breaks_always mode
    then (if is_handled then handled else unhandled)
    else if breaks_unhandled mode && not is_handled
    then unhandled
    else no_break

-- `is_handled` is asked only if the mode has one of the bits.
unfoldable pub should_break :
    (Text → Option (List Handler))
    → Bool
    → Raised
    → Option Traceback
    → ExceptionBreakInfo
    → BreakType × ExceptionBreakInfo
unfolding is_handled get_exception_name
should_break reply systemexit_zero ex trace info =
    let mode : ℕ =
      or_default (lookup (get_exception_name ex.module_name ex.name) info.break_on)
        info.default_mode in
    let search : Search = is_handled reply trace info.handler_cache in
    let asked : Bool = breaks_always mode || breaks_unhandled mode in
    (
      if ex.system_exit && not systemexit_zero && ex.zero_exit
          then no_break
          else break_type mode search.is_handled,
      record {
        default_mode = info.default_mode;
        break_on = info.break_on;
        handler_cache = if asked then search.cache else info.handler_cache;
      },
    )

-- `name.startswith(_EXCEPTIONS_MODULE + '.')`
abbrev pub builtins_prefix : Text
builtins_prefix = exceptions_module ++ codes "."

unfoldable pub short_name : Text → Text
short_name name = if same (take 9 name) builtins_prefix then drop 9 name else name

unfoldable pub add_exception : Text → ℕ → ExceptionBreakInfo → ExceptionBreakInfo
unfolding short_name
add_exception name mode info = record {
  default_mode = info.default_mode;
  break_on = insert (short_name name) mode info.break_on;
  handler_cache = info.handler_cache;
}

-- BUILT_IN_HANDLERS: the files are a parameter, since `path.normcase` names them; each is one `try`
-- around the whole file.
abbrev pub built_in_handlers : List Text → Cache
built_in_handlers [] = []
built_in_handlers (file ∷ files) =
    insert file (record { lines = none; expressions = codes "*" ∷ [] } ∷ [])
      (built_in_handlers files)

unfoldable pub clear : List Text → ExceptionBreakInfo → ExceptionBreakInfo
clear files info = record {
  default_mode = break_mode_unhandled;
  break_on = [];
  handler_cache = built_in_handlers files;
}

-- The loop that reads the exceptions of a message
unfoldable pub add_all : List (ℕ × Text) → ExceptionBreakInfo → ExceptionBreakInfo
unfolding add_exception
add_all [] info = info
add_all ((mode, name) ∷ more) info = add_all more (add_exception name mode info)

unfoldable pub command_set_exception_info :
    List Text → ℕ → List (ℕ × Text) → ExceptionBreakInfo → ExceptionBreakInfo
unfolding clear add_all
command_set_exception_info files default_mode exceptions info =
    let cleared : ExceptionBreakInfo = clear files info in
    add_all exceptions (record {
      default_mode = default_mode;
      break_on = cleared.break_on;
      handler_cache = cleared.handler_cache;
    })
