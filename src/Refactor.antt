-- ===== src/Refactor.antt =====
-- The refactoring server (pythonFiles/refactor.py). Rope, difflib and JSON are parameters.
pub mod Diff
pub mod Requests
mod Tests
use python_vscode.Prelude.{
  ℕ, zero, suc, Text, Bool, true, false, Option, none, some, List, [], ◌∷◌, ◌++◌, if◌then◌else◌,
  ◌==◌, ◌&&◌, ◌||◌, not, same, codes,
}
use python_vscode.Prelude.Options.{◌>>=◌}

-- A `ChangeContents` of rope; `resource` is what the file holds, if it exists.
pub record Contents : Type 0 where
  pub path : Text
  pub real_path : Text
  pub resource : Option Text
  pub old_contents : Option Text
  pub new_contents : Text

pub data RopeChange : Type 0 where
  contents : Contents → RopeChange
  other_change : RopeChange

-- What rope's `get_changes` returns, or how it or what comes before it raises
pub data Found : Type 0 where
  found : List RopeChange → Found
  interrupted failed : Found

-- `ChangeType`
pub data ChangeType : Type 0 where
  edit new delete : ChangeType

pub record Change : Type 0 where
  pub file_path : Text
  pub file_mode : ChangeType
  pub diff : Text

-- The characters that end a line for `str.splitlines`
abbrev pub is_break : ℕ → Bool
is_break c =
    c == 10
    || (c == 11
        || (c == 12
            || (c == 13
                || (c == 28 || (c == 29 || (c == 30 || (c == 133 || (c == 8232 || c == 8233))))))))

abbrev pub attach : ℕ → List Text → List Text
attach c [] = (c ∷ []) ∷ []
attach c (l ∷ lines) = (c ∷ l) ∷ lines

abbrev pub is_newline_next : Text → Bool
is_newline_next [] = false
is_newline_next (c ∷ s) = c == 10

-- s.splitlines(True): a carriage return goes with the newline after it.
unfoldable pub splitlines : Text → List Text
splitlines [] = []
splitlines (c ∷ s) =
    let rest = splitlines s in
    if is_break c && not (c == 13 && is_newline_next s) then (c ∷ []) ∷ rest else attach c rest

-- s.endswith('\n')
abbrev pub ends_with_newline : Text → Bool
ends_with_newline [] = false
ends_with_newline (c ∷ []) = c == 10
ends_with_newline (c ∷ d ∷ s) = ends_with_newline (d ∷ s)

-- What is added to the old and to the new text: `none` is the IndexError of a text without lines.
unfoldable pub added_end : Text → List Text → Option Text
added_end linesep [] = none
added_end linesep (l ∷ []) = some (if ends_with_newline l then [] else linesep)
added_end linesep (l ∷ m ∷ lines) = added_end linesep (m ∷ lines)

-- `old_lines[-1] = old_lines[-1] + end`
unfoldable pub extend_last : Text → List Text → List Text
extend_last end [] = []
extend_last end (l ∷ []) = (l ++ end) ∷ []
extend_last end (l ∷ m ∷ lines) = l ∷ extend_last end (m ∷ lines)

abbrev pub concat : List Text → Text
concat [] = []
concat (l ∷ lines) = l ++ concat lines

-- The old text of a change
abbrev pub old_of : Contents → Text
old_of c = elim c.old_contents [
  | some old ↦ old
  | none ↦ elim c.resource [ some text ↦ text | none ↦ [] ]
]

-- `os.linesep`, and `difflib.unified_diff` of two lists of lines and two names
pub record Platform : Type 0 where
  pub linesep : Text
  pub unified_diff : List Text → List Text → Text → Text → List Text

module _ (p : Platform) where
  -- The lines that are compared
  unfoldable pub compared : Text → Text → Option (List Text × List Text)
  unfolding splitlines added_end extend_last
  compared old text = do
    end ← added_end p.linesep (splitlines old)
    some (extend_last end (splitlines old), splitlines (text ++ end))

  unfoldable pub get_diff : Contents → Option Text
  unfolding compared
  get_diff c = do
    lines ← compared (old_of c) c.new_contents
    some (concat (p.unified_diff lines.0 lines.1 (codes "a/" ++ c.path) (codes "b/" ++ c.path)))

  -- The loop of `onRefactor`, the same for the three refactorings; `none` is an exception.
  unfoldable pub changes_of : List RopeChange → Option (List Change)
  unfolding get_diff
  changes_of [] = some []
  changes_of (other_change ∷ changes) = none
  changes_of (contents c ∷ changes) = do
    diff ← get_diff c
    rest ← changes_of changes
    some (record { file_path = c.real_path; file_mode = edit; diff = diff } ∷ rest)

  -- `refactor` and then `refactor.changes`: a task that was interrupted has no changes.
  unfoldable pub refactor : Found → Option (List Change)
  unfolding changes_of
  refactor (found changes) = changes_of changes
  refactor interrupted = some []
  refactor failed = none

  -- The list of the diffs, as `_rename`, `_extractVariable` and `_extractMethod` return it
  abbrev pub diffs : List Change → List Text
  diffs [] = []
  diffs (c ∷ changes) = c.diff ∷ diffs changes

-- What `_update_progress` reports of a set of jobs
pub record JobSet : Type 0 where
  pub name : Option Text
  pub active_job : Option Text
  pub percent : Option ℕ

pub record Progress : Type 0 where
  pub name : Text
  pub message : Option Text
  pub percent : ℕ

abbrev or_text : Option Text → Text → Text
or_text none t = t
or_text (some s) t = s

abbrev or_zero : Option ℕ → ℕ
or_zero none = 0
or_zero (some n) = n

unfoldable pub update_progress : Bool → Option JobSet → Option Progress
update_progress has_callback none = none
update_progress has_callback (some j) =
    if has_callback
    then some (record {
      name = or_text j.name (codes "Task Name");
      message = j.active_job;
      percent = or_zero j.percent;
    })
    else none
