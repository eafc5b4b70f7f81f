-- ===== src/Normalize/Tests.antt =====
-- A source with a function and two statements.
use python_vscode.Prelude.{
  ℕ, ◌≡◌, refl, Text, Bool, true, false, Option, some, List, [], ◌∷◌, arith, codes, ◌==◌,
}
use python_vscode.Normalize.{
  Token, newlines_indexes_to_remove, get_global_statement_blocks, normalized, normalize_lines,
}
use python_vscode.Normalize.Removed.{code_lines}
use python_vscode.Normalize.Kept.{IsWritten, normalized_lem}

abbrev is_blank_char : ℕ → Bool
is_blank_char c = c == 32

-- x, a function with a blank line in it, y and z
abbrev source : List Text
source = codes "x" ∷ codes "def f():" ∷ [] ∷ codes "  g()" ∷ codes "y" ∷ codes "z" ∷ []

abbrev tokens : List Token
tokens =
    record { is_nl = false; line = codes "x"; start_row = 1; end_row = 1 }
    ∷ record { is_nl = true; line = codes " "; start_row = 3; end_row = 3 }
    ∷ record { is_nl = false; line = codes "y"; start_row = 5; end_row = 5 }
    ∷ []

abbrev statements : List ℕ
statements = 2 ∷ 4 ∷ 5 ∷ []

abbrev parse : List Text → Option (List ℕ)
parse lines = some (1 ∷ statements)

blocks_of_kept :
    get_global_statement_blocks (1 ∷ statements) 5
    ≡ record { start_line = 1; end_line = 1; is_oneline = true }
      ∷ record { start_line = 2; end_line = 3; is_oneline = false }
      ∷ record { start_line = 4; end_line = 5; is_oneline = true }
      ∷ []
unfolding get_global_statement_blocks
blocks_of_kept = refl

normalize_source :
    normalize_lines is_blank_char parse tokens true source
    ≡ some (codes "x\n\ndef f():\n  g()\n\ny\nz\n")
unfolding normalize_lines
normalize_source = refl

normalized_lem_example :
    (kept : List Text) × (code_lines is_blank_char kept ≡ code_lines is_blank_char source)
    × IsWritten is_blank_char parse kept (normalized is_blank_char parse tokens source)
normalized_lem_example =
    normalized_lem is_blank_char parse tokens source
      (unfold newlines_indexes_to_remove in (omega arith, ([], refl, refl), tt))
