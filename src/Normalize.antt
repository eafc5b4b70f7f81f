-- ===== src/Normalize.antt =====
-- What is sent to a terminal (pythonFiles/normalizeForInterpreter.py): blank lines out of the
-- statements, and an empty line between the blocks of statements. A line is a text without its end.
-- The tokens of `tokenize`, the statements that `ast.parse` finds at column 0, if it does not raise, and `str.isspace` are
-- parameters.
pub mod Removed
pub mod Blocks
pub mod Kept
mod Tests
use python_vscode.Prelude.{
  ℕ, zero, suc, ◌+◌, ◌-◌, Text, Bool, true, false, not, ◌&&◌, ◌||◌, Option, none, some, List, [],
  ◌∷◌, ◌++◌, ltb, leb, ◌==◌, if◌then◌else◌, length, take, drop, any, codes, map,
}

-- A token: is it an NL, the line that it is in, and the rows where it starts and ends.
pub record Token : Type 0 where
  pub is_nl : Bool
  pub line : Text
  pub start_row : ℕ
  pub end_row : ℕ

-- A range of lines, and does it consist of one-line statements?
pub record Block : Type 0 where
  pub start_line : ℕ
  pub end_line : ℕ
  pub is_oneline : Bool

-- `del lines[index]`, which raises outside the list
unfoldable pub delete_at : ℕ → List Text → Option (List Text)
delete_at i [] = none
delete_at zero (l ∷ lines) = some lines
delete_at (suc i) (l ∷ lines) = elim (delete_at i lines) [ none ↦ none | some r ↦ some (l ∷ r) ]

-- `del lines[line_number-1]`, where -1 is the last line
abbrev pub delete_line : ℕ → List Text → Option (List Text)
delete_line zero lines = delete_at (length lines - 1) lines
delete_line (suc n) lines = delete_at n lines

abbrev pub delete_line_of : ℕ → Option (List Text) → Option (List Text)
delete_line_of n none = none
delete_line_of n (some lines) = delete_line n lines

-- The loop that deletes the lines, the last of them first
unfoldable pub delete_lines : List ℕ → List Text → Option (List Text)
unfolding delete_at
delete_lines [] lines = some lines
delete_lines (n ∷ numbers) lines = delete_line_of n (delete_lines numbers lines)

module _ (is_space : ℕ → Bool) where
  -- len(line.strip()) == 0
  abbrev pub is_blank : Text → Bool
  is_blank [] = true
  is_blank (c ∷ line) = is_space c && is_blank line

  abbrev pub is_removed : Token → Bool
  is_removed t = is_blank t.line && t.is_nl && t.start_row == t.end_row

  unfoldable pub newlines_indexes_to_remove : List Token → List ℕ
  newlines_indexes_to_remove [] = []
  newlines_indexes_to_remove (t ∷ tokens) =
      let more = newlines_indexes_to_remove tokens in
      if is_removed t then t.start_row ∷ more else more

-- min() of the first and the others
unfoldable pub min_with : ℕ → List ℕ → ℕ
min_with m [] = m
min_with m (n ∷ numbers) = min_with (if ltb n m then n else m) numbers

abbrev pub end_line_number : ℕ → List ℕ → ℕ
end_line_number count [] = count
end_line_number count (n ∷ remaining) = min_with n remaining - 1

-- What the loop does with `statement_ranges` for one more statement.
unfoldable pub add_range : Block → List Block → List Block
add_range b [] = b ∷ []
add_range b (previous ∷ []) =
    if previous.is_oneline && b.is_oneline
    then record { start_line = previous.start_line; end_line = b.end_line; is_oneline = true } ∷ []
    else previous ∷ b ∷ []
add_range b (first ∷ second ∷ ranges) = first ∷ add_range b (second ∷ ranges)

abbrev pub statement_block : ℕ → ℕ → Block
statement_block line_number end_line_number = record {
  start_line = line_number;
  end_line = end_line_number;
  is_oneline = line_number == end_line_number;
}

unfoldable pub statement_ranges : ℕ → List ℕ → List Block → List Block
unfolding add_range min_with
statement_ranges count [] ranges = ranges
statement_ranges count (n ∷ remaining) ranges =
    statement_ranges count remaining
      (add_range (statement_block n (end_line_number count remaining)) ranges)

-- The lines of the statements, and how many lines there are
unfoldable pub get_global_statement_blocks : List ℕ → ℕ → List Block
unfolding statement_ranges
get_global_statement_blocks statements count = statement_ranges count statements []

-- `lines.insert(index, line)`
abbrev pub insert_at : ℕ → Text → List Text → List Text
insert_at i line lines = take i lines ++ (line ∷ drop i lines)

-- The loop that inserts the empty lines, the last of them first
unfoldable pub insert_blanks : List Block → List Text → List Text
insert_blanks [] lines = lines
insert_blanks (b ∷ blocks) lines =
    let rest = insert_blanks blocks lines in
    if ltb 1 b.start_line then insert_at (b.start_line - 1) [] rest else rest

abbrev pub join_lines : List Text → Text
join_lines [] = []
join_lines (l ∷ []) = l
join_lines (l ∷ m ∷ lines) = l ++ (10 ∷ join_lines (m ∷ lines))

module _ (is_space : ℕ → Bool) (statements_of : List Text → Option (List ℕ)) where
  abbrev pub last_is_blank : Text → List Text → Bool
  last_is_blank l [] = is_blank is_space l
  last_is_blank l (m ∷ lines) = last_is_blank m lines

  -- The lines that are written, from the tokens of the source and its lines; `ast.parse` raises where the
  -- lines that are left are no program.
  unfoldable pub normalized : List Token → List Text → Option (List Text)
  unfolding delete_lines newlines_indexes_to_remove insert_blanks get_global_statement_blocks
  normalized tokens lines = elim (delete_lines (newlines_indexes_to_remove is_space tokens) lines) [
    | none ↦ none
    | some kept ↦ elim (statements_of kept) [
      | none ↦ none
      | some statements ↦
          some (insert_blanks (get_global_statement_blocks statements (length kept)) kept)
    ]
  ]

  -- `normalize_lines` of a source with these tokens and lines that ends with a newline or not;
  -- `lines[-1]` raises if there are no lines.
  unfoldable pub normalize_lines : List Token → Bool → List Text → Option Text
  unfolding normalized
  normalize_lines tokens ends_with_newline [] = none
  normalize_lines tokens ends_with_newline (l ∷ lines) =
      let trailing_newline : Text =
        if last_is_blank l lines || ends_with_newline then 10 ∷ [] else [] in
      elim (normalized tokens (l ∷ lines)) [
        | none ↦ none
        | some out ↦ some (join_lines out ++ trailing_newline)
      ]
