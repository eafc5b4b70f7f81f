-- ===== src/Debugger/Django.antt =====
-- Breakpoints in Django templates: `DjangoBreakpointInfo` and its commands
-- (pythonFiles/PythonTools/visualstudio_py_debugger.py). `read` is the lines of a file, each with its
-- end, or none where it cannot be opened; `lower` is `str.lower`, and `bisect_right` is that of
-- `bisect` on a sorted list.
pub mod Ranges
pub mod Lines
use python_vscode.Prelude.{
  ℕ, zero, suc, ◌+◌, ◌-◌, Text, Bool, true, false, ◌&&◌, Option, none, some, List, [], ◌∷◌, leb,
  if◌then◌else◌, length, take, drop, same, text_eq, nat_eq,
}
use python_vscode.Prelude.Dict.{Dict, lookup, insert, remove}

pub record DjangoBreakpointInfo : Type 0 where
  pub known_locations : Option (List ℕ)
  pub filename : Text
  pub breakpoints : Dict ℕ ℕ

unfoldable pub new_info : Text → DjangoBreakpointInfo
new_info filename = record { known_locations = none; filename = filename; breakpoints = [] }

unfoldable pub add_breakpoint : ℕ → ℕ → DjangoBreakpointInfo → DjangoBreakpointInfo
add_breakpoint lineno id info = record info { breakpoints = insert lineno id info.breakpoints }

unfoldable pub remove_breakpoint : ℕ → DjangoBreakpointInfo → DjangoBreakpointInfo
remove_breakpoint lineno info = record info { breakpoints = remove lineno info.breakpoints }

abbrev pub bom_utf8 : Text
bom_utf8 = 239 ∷ 187 ∷ 191 ∷ []

abbrev pub ends_with_crlf : Text → Bool
ends_with_crlf line = same (drop (length line - 2) line) (13 ∷ 10 ∷ [])

abbrev pub without_bom : Bool → Text → ℕ
without_bom first line =
    if first && same (take 3 line) bom_utf8 then length line - 3 else length line

-- The length that Django gives a line, and is it the first?
unfoldable pub line_len : Bool → Text → ℕ
line_len first line =
    if ends_with_crlf line then without_bom first line - 1 else without_bom first line

abbrev pub line_lengths : Bool → List Text → List ℕ
line_lengths first [] = []
line_lengths first (line ∷ lines) = line_len first line ∷ line_lengths false lines

-- `line_info`, from `file_len` on
unfoldable pub line_info : ℕ → Bool → List Text → List ℕ
unfolding line_len
line_info file_len first [] = []
line_info file_len first (line ∷ lines) =
    (file_len + line_len first line) ∷ line_info (file_len + line_len first line) false lines

unfoldable pub bisect_right : List ℕ → ℕ → ℕ
bisect_right [] x = 0
bisect_right (n ∷ ns) x = let more = bisect_right ns x in if leb n x then suc more else 0

-- `self.breakpoints.get(i)` for `count` lines from `i` on, up to the first that has one
unfoldable pub first_breakpoint : ℕ → ℕ → Dict ℕ ℕ → Option ℕ
first_breakpoint i zero breakpoints = none
first_breakpoint i (suc count) breakpoints =
    let more = first_breakpoint (suc i) count breakpoints in
    elim (lookup i breakpoints) [ none ↦ more | some id ↦ some id ]

abbrev pub answer_of : Option ℕ → Bool × ℕ
answer_of none = (false, 0)
answer_of (some id) = (true, id)

-- low_line and hi_line count from 0, the keys of the breakpoints from 1.
abbrev pub break_in : Dict ℕ ℕ → Option (ℕ × ℕ) → Bool × ℕ
break_in breakpoints none = (false, 0)
break_in breakpoints (some (low_line, hi_line)) =
    answer_of (first_breakpoint (low_line + 1) (hi_line + 1 - low_line) breakpoints)

abbrev pub range_in : ℕ → ℕ → Option (List ℕ) → Option (ℕ × ℕ)
range_in start end none = none
range_in start end (some locations) =
    some (bisect_right locations start, bisect_right locations end)

module _ (read : Text → Option (List Text)) where
  abbrev pub locations_of : Option (List ℕ) → Text → Option (List ℕ)
  locations_of (some known) filename = some known
  locations_of none filename = elim (read filename) [
    | none ↦ none
    | some lines ↦ some (line_info 0 true lines)
  ]

  -- The property computes its value once, if the file can be read.
  unfoldable pub line_locations : DjangoBreakpointInfo → Option (List ℕ) × DjangoBreakpointInfo
  unfolding line_info
  line_locations info =
      let found : Option (List ℕ) = locations_of info.known_locations info.filename in
      (found, record info { known_locations = found })

  unfoldable pub get_line_range :
      ℕ → ℕ → DjangoBreakpointInfo → Option (ℕ × ℕ) × DjangoBreakpointInfo
  unfolding line_locations bisect_right
  get_line_range start end info =
      let (found, info') = line_locations info in (range_in start end found, info')

  unfoldable pub should_break : ℕ → ℕ → DjangoBreakpointInfo → (Bool × ℕ) × DjangoBreakpointInfo
  unfolding get_line_range first_breakpoint
  should_break start end info =
      let (range, info') = get_line_range start end info in (break_in info.breakpoints range, info')

-- DJANGO_BREAKPOINTS
abbrev pub DjangoBreakpoints : Type 0
DjangoBreakpoints = Dict Text DjangoBreakpointInfo

abbrev pub or_new : Text → Option DjangoBreakpointInfo → DjangoBreakpointInfo
or_new filename none = new_info filename
or_new filename (some info) = info

unfoldable pub command_add_django_breakpoint :
    (Text → Text) → ℕ → ℕ → Text → DjangoBreakpoints → DjangoBreakpoints
unfolding add_breakpoint new_info
command_add_django_breakpoint lower id lineno filename table =
    insert (lower filename)
      (add_breakpoint lineno id (or_new filename (lookup (lower filename) table))) table

abbrev remove_found_info :
    ℕ → Text → Option DjangoBreakpointInfo → DjangoBreakpoints → DjangoBreakpoints
remove_found_info lineno key none table = table
remove_found_info lineno key (some info) table = insert key (remove_breakpoint lineno info) table

unfoldable pub command_remove_django_breakpoint :
    (Text → Text) → ℕ → ℕ → Text → DjangoBreakpoints → DjangoBreakpoints
unfolding remove_breakpoint
command_remove_django_breakpoint lower lineno id filename table =
    remove_found_info lineno (lower filename) (lookup (lower filename) table) table
