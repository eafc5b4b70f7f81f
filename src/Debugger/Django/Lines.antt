-- ===== src/Debugger/Django/Lines.antt =====
-- The lines of a template and its offsets: `_offset_to_line_number`, `line_number_to_offset` and
-- `is_range_plain_text`.
pub mod Counted
use python_vscode.Prelude.{
  ℕ, zero, suc, ◌+◌, ◌-◌, Text, Bool, true, false, not, ◌&&◌, ◌||◌, Option, none, some, List, [],
  ◌∷◌, ◌==◌, ltb, if◌then◌else◌, codes, get_elem?, nat_eq,
}
use python_vscode.Prelude.Int.{ℤ, pos, negsuc}
use python_vscode.Prelude.Dict.{Dict, lookup, insert}
use python_vscode.Prelude.Texts.{starts_with}
use python_vscode.Prelude.Options.{◌>>=◌}
use python_vscode.Debugger.Django.{DjangoBreakpointInfo, line_locations}

-- The loop of `_offset_to_line_number` over the rest of the text, `n` characters before the offset; none where
-- the character after a carriage return that is the last one is read, which raises an IndexError.
unfoldable pub walk_lines : ℕ → ℕ → Text → Option ℤ
walk_lines line zero t = some (pos line)
walk_lines line (suc n) [] = some (negsuc 0)
walk_lines line (suc n) (c ∷ []) =
    if c == b'\r' then none else walk_lines (if c == b'\n' then line + 1 else line) n []
walk_lines line (suc n) (c ∷ d ∷ t) =
    let skipped = walk_lines (line + 1) (n - 1) t in
    let next = walk_lines (if c == b'\r' || c == b'\n' then line + 1 else line) n (d ∷ t) in
    if c == b'\r' && d == b'\n' then skipped else next

unfoldable pub offset_to_line_number : Text → ℕ → Option ℤ
unfolding walk_lines
offset_to_line_number t offset = walk_lines 1 offset t

-- `line_locs[lineNumber - 1], line_locs[lineNumber]` for a line number that is not 0; none where there is no
-- such item, and a none inside where the file cannot be read
abbrev pub offsets_in : ℕ → Option (List ℕ) → Option (Option (ℕ × ℕ))
offsets_in line none = some none
offsets_in line (some locations) = do
  low ← get_elem? locations (line - 1)
  hi ← get_elem? locations line
  some (some (low, hi))

unfoldable pub line_number_to_offset :
    (Text → Option (List Text))
    → ℕ
    → DjangoBreakpointInfo
    → Option (Option (ℕ × ℕ)) × DjangoBreakpointInfo
unfolding line_locations
line_number_to_offset read line info =
    let (found, info') = line_locations read info in (offsets_in line found, info')
