-- ===== src/Normalize/Kept.antt =====
-- What is written: the lines of the source, less blank ones, in blocks with an empty line before each.
use python_vscode.Prelude.{
  ℕ, zero, suc, ◌+◌, ◌-◌, ◌≤◌, ◌≡◌, refl, ap, sym, ◌∙◌, Text, Bool, true, Option, none, some, List,
  [], ◌∷◌, ◌++◌, ltb, if◌then◌else◌, arith, length, take, drop, Bool-cases, Option-cases, ◌⊎◌, inl,
  inr,
}
use python_vscode.Normalize.{
  Token, Block, newlines_indexes_to_remove, get_global_statement_blocks, insert_at, insert_blanks,
  normalized,
}
use python_vscode.Normalize.Blocks.{Ascend, Tile, get_global_statement_blocks-Tile}
use python_vscode.Normalize.Removed.{BlankRows, code_lines, delete_lines_lem}

-- The lines cut into the blocks, with an empty line before each that does not start on line 1.
unfoldable pub separated : List Block → List Text → List Text
separated [] rest = rest
separated (b ∷ blocks) rest =
    let size : ℕ = suc b.end_line - b.start_line in
    (if ltb 1 b.start_line then [] ∷ [] else [])
    ++ (take size rest ++ separated blocks (drop size rest))

take-all : (n : ℕ) (lines : List Text) → length lines ≡ n → take n lines ++ drop n lines ≡ lines
take-all zero [] h = refl
take-all zero (l ∷ lines) h = refl
take-all (suc n) [] h = refl
take-all (suc n) (l ∷ lines) h = ap (λ r. l ∷ r) (take-all n lines (omega arith))

drop-drop : (k s : ℕ) (lines : List Text) → drop k (drop s lines) ≡ drop (s + k) lines
drop-drop k zero lines = let z : 0 + k ≡ k = omega arith in rw z
drop-drop zero (suc s) [] = let z : suc s + 0 ≡ suc s = omega arith in rw z
drop-drop (suc k) (suc s) [] = let z : suc s + suc k ≡ suc (s + suc k) = omega arith in rw z
drop-drop k (suc s) (l ∷ lines) =
    let z : suc s + k ≡ suc (s + k) = omega arith in rw z (drop-drop k s lines)

insert_at-take :
    (s k : ℕ) (lines rest : List Text) (y : Text)
    → s + k ≤ length lines
    → insert_at s y (take (s + k) lines ++ rest)
      ≡ take s lines ++ (y ∷ (take k (drop s lines) ++ rest))
insert_at-take zero k lines rest y h = let z : 0 + k ≡ k = omega arith in rw z
insert_at-take (suc s) k [] rest y h = absurd (omega arith)
insert_at-take (suc s) k (l ∷ lines) rest y h =
    let z : suc s + k ≡ suc (s + k) = omega arith in
    rw z (ap (λ r. l ∷ r) (insert_at-take s k lines rest y (omega arith)))

insert_first :
    (s k : ℕ) (lines rest : List Text)
    → s + k ≤ length lines
    → (if ltb 1 (suc s)
        then insert_at s [] (take (s + k) lines ++ rest)
        else take (s + k) lines ++ rest)
      ≡ take s lines ++ ((if ltb 1 (suc s) then [] ∷ [] else []) ++ (take k (drop s lines) ++ rest))
insert_first zero k lines rest h = let z : 0 + k ≡ k = omega arith in rw z
insert_first (suc s) k lines rest h =
    let e : ltb 1 (suc (suc s)) ≡ true = ground arith in
    rw e (insert_at-take (suc s) k lines rest [] h)

-- One block in front of those that are done.
insert_block :
    (n s k e : ℕ) (lines done : List Text) (rest : List Text → List Text)
    → n ≡ suc s
    → e ≡ s + k
    → e ≤ length lines
    → done ≡ take e lines ++ rest (drop e lines)
    → (if ltb 1 n then insert_at (n - 1) [] done else done)
      ≡ take s lines
        ++ ((if ltb 1 n then [] ∷ [] else [])
            ++ (take (suc e - n) (drop s lines) ++ rest (drop (suc e - n) (drop s lines))))
insert_block n s k e lines done rest p split r d =
    let size : suc e - n ≡ k = omega arith in
    let index : n - 1 ≡ s = omega arith in
    rw (d, size, index, p, drop-drop k s lines, split)
      (insert_first s k lines (rest (drop (s + k) lines)) (omega arith))

Tile-le : (first last : ℕ) (blocks : List Block) → Tile first last blocks → first ≤ suc last
Tile-le first last [] t = omega arith
Tile-le first last (b ∷ blocks) t = omega (arith, Tile-le (suc b.end_line) last blocks t.2)

insert_blanks-separated :
    (s count : ℕ) (blocks : List Block) (lines : List Text)
    → Tile (suc s) count blocks
    → length lines ≡ count
    → insert_blanks blocks lines ≡ take s lines ++ separated blocks (drop s lines)
unfolding insert_blanks separated
insert_blanks-separated s count [] lines t h = sym (take-all s lines (omega arith))
insert_blanks-separated s count (b ∷ blocks) lines t h =
    let above = insert_blanks-separated b.end_line count blocks lines t.2 h in
    let fits = Tile-le (suc b.end_line) count blocks t.2 in
    insert_block b.start_line s (b.end_line - s) b.end_line lines (insert_blanks blocks lines)
      (separated blocks) t.0 (omega arith) (omega arith) above

-- If the statements stand on ascending lines from the line `s + 1` on, then the lines before it stay as
-- they are, and from it on the lines stand in the blocks of the statements, with an empty line before
-- each block but one that starts on line 1.
pub insert_blanks-get_global_statement_blocks :
    (s : ℕ) (statements : List ℕ) (lines : List Text)
    → Ascend (suc (suc s)) (length lines) statements
    → let blocks : List Block = get_global_statement_blocks (suc s ∷ statements) (length lines) in
      insert_blanks blocks lines ≡ take s lines ++ separated blocks (drop s lines)
insert_blanks-get_global_statement_blocks s statements lines a =
    insert_blanks-separated s (length lines) _ lines
      (get_global_statement_blocks-Tile (suc s) (length lines) statements a).0 refl

-- Nothing but empty lines is inserted.
module _ (is_space : ℕ → Bool) where
  code_lines-insert_at :
      (i : ℕ) (lines : List Text)
      → code_lines is_space (insert_at i [] lines) ≡ code_lines is_space lines
  unfolding code_lines
  code_lines-insert_at zero lines = refl
  code_lines-insert_at (suc i) [] = refl
  code_lines-insert_at (suc i) (l ∷ lines) = rw (code_lines-insert_at i lines)

  code_lines-insert_blanks :
      (blocks : List Block) (lines : List Text)
      → code_lines is_space (insert_blanks blocks lines) ≡ code_lines is_space lines
  unfolding insert_blanks
  code_lines-insert_blanks [] lines = refl
  code_lines-insert_blanks (b ∷ blocks) lines = elim (Bool-cases (ltb 1 b.start_line)) [
    | inl y ↦ rw y (
        code_lines-insert_at (b.start_line - 1) (insert_blanks blocks lines)
        ∙ code_lines-insert_blanks blocks lines)
    | inr y ↦ rw y (code_lines-insert_blanks blocks lines)
  ]

  -- What is written of the lines that are left: nothing if they are no program, and otherwise lines that are
  -- the same without the blank ones
  abbrev pub IsWritten : (List Text → Option (List ℕ)) → List Text → Option (List Text) → Type 0
  IsWritten statements_of kept out =
      ((statements_of kept ≡ none) × (out ≡ none))
      ⊎ ((statements : List ℕ) × (written : List Text) × (statements_of kept ≡ some statements)
          × (out ≡ some written)
          × (code_lines is_space written ≡ code_lines is_space kept))

  -- If the rows of the tokens to remove ascend from 1 on and are those of blank lines, then the lines that
  -- are left are those of the source but for blank ones. If they are a program for the parser, then, whatever
  -- statements it finds, lines are written, which are these in their order but for blank ones; and if
  -- they are no program, nothing is written.
  pub normalized_lem :
      (statements_of : List Text → Option (List ℕ)) (tokens : List Token) (lines : List Text)
      → BlankRows is_space lines 1 (newlines_indexes_to_remove is_space tokens)
      → (kept : List Text) × (code_lines is_space kept ≡ code_lines is_space lines)
        × IsWritten statements_of kept (normalized is_space statements_of tokens lines)
  unfolding normalized
  normalized_lem statements_of tokens lines h =
      let rows : List ℕ = newlines_indexes_to_remove is_space tokens in
      let (kept, e, before, code) = delete_lines_lem is_space 1 rows lines h in
      (
        kept,
        code,
        rw (normalized, e)
            (elim (Option-cases (statements_of kept)) [
              | inl n ↦ inl (n, rw n)
              | inr (statements, s) ↦ inr (
                statements,
                insert_blanks (get_global_statement_blocks statements (length kept)) kept,
                s,
                rw s,
                code_lines-insert_blanks (get_global_statement_blocks statements (length kept))
                    kept,
              )
            ]),
      )
