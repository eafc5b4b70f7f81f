-- ===== src/Normalize/Blocks.antt =====
-- What the blocks of statements cover.
use python_vscode.Prelude.{ℕ, suc, ◌≤◌, ◌<◌, ◌≡◌, refl, false, ◌&&◌, List, [], ◌∷◌, ltb, arith}
use python_vscode.Normalize.{
  Block, min_with, end_line_number, add_range, statement_block, statement_ranges,
  get_global_statement_blocks,
}

-- The numbers ascend, from `low` on, and are at most `high`.
abbrev pub Ascend : ℕ → ℕ → List ℕ → Type 0
Ascend low high [] = low ≤ suc high
Ascend low high (n ∷ numbers) = (low ≤ n) × Ascend (suc n) high numbers

-- One block begins where the one before it ends, and they cover the lines `first` to `last`.
abbrev pub Tile : ℕ → ℕ → List Block → Type 0
Tile first last [] = first ≡ suc last
Tile first last (b ∷ blocks) =
    (b.start_line ≡ first) × (b.start_line ≤ b.end_line) × Tile (suc b.end_line) last blocks

-- No block of one-line statements follows another.
abbrev pub NoneMerge : List Block → Type 0
NoneMerge [] = Unit
NoneMerge (b ∷ []) = Unit
NoneMerge (b ∷ c ∷ blocks) = ((b.is_oneline && c.is_oneline) ≡ false) × NoneMerge (c ∷ blocks)

min_with-Ascend :
    (m low high : ℕ) (numbers : List ℕ) → m < low → Ascend low high numbers → min_with m numbers ≡ m
unfolding min_with
min_with-Ascend m low high [] h a = refl
min_with-Ascend m low high (n ∷ numbers) h a =
    let e : ltb n m ≡ false = ground arith in
    rw e (min_with-Ascend m (suc n) high numbers (omega arith) a.1)

add_range-Tile :
    (b : Block) (first last : ℕ) (blocks : List Block)
    → Tile first last blocks
    → b.start_line ≡ suc last
    → b.start_line ≤ b.end_line
    → Tile first b.end_line (add_range b blocks)
unfolding add_range
add_range-Tile b first last [] t s e = (ground arith, e, refl)
add_range-Tile b first last (p ∷ []) t s e = ground arith
add_range-Tile b first last (p ∷ q ∷ blocks) t s e =
    (t.0, t.1, add_range-Tile b (suc p.end_line) last (q ∷ blocks) t.2 s e)

add_range-NoneMerge :
    (b : Block) (blocks : List Block) → NoneMerge blocks → NoneMerge (add_range b blocks)
unfolding add_range
add_range-NoneMerge b [] h = tt
add_range-NoneMerge b (p ∷ []) h = ground arith
add_range-NoneMerge b (p ∷ q ∷ []) h = ground arith
add_range-NoneMerge b (p ∷ q ∷ r ∷ blocks) h = (h.0, add_range-NoneMerge b (q ∷ r ∷ blocks) h.1)

-- The next statement is on the line after the blocks so far.
abbrev Next : ℕ → ℕ → List ℕ → Type 0
Next last count [] = last ≡ count
Next last count (n ∷ remaining) = n ≡ suc last

end-Ascend :
    (n count : ℕ) (remaining : List ℕ)
    → Ascend (suc n) count remaining
    → (n ≤ end_line_number count remaining)
      × Ascend (suc (end_line_number count remaining)) count remaining
      × Next (end_line_number count remaining) count remaining
end-Ascend n count [] a = (omega arith, omega arith, refl)
end-Ascend n count (m ∷ remaining) a =
    let e = min_with-Ascend m (suc m) count remaining (omega arith) a.1 in
    rw e (omega arith, (omega arith, a.1), omega arith)

statement_ranges-Tile :
    (first last count : ℕ) (statements : List ℕ) (blocks : List Block)
    → Ascend (suc last) count statements
    → Next last count statements
    → Tile first last blocks
    → NoneMerge blocks
    → Tile first count (statement_ranges count statements blocks)
      × NoneMerge (statement_ranges count statements blocks)
unfolding statement_ranges
statement_ranges-Tile first last count [] blocks a x t m = rw⁻¹ x (t, m)
statement_ranges-Tile first last count (n ∷ remaining) blocks a x t m =
    let b : Block = statement_block n (end_line_number count remaining) in
    let e = end-Ascend n count remaining a.1 in
    statement_ranges-Tile first b.end_line count remaining (add_range b blocks) e.1 e.2
      (add_range-Tile b first last blocks t x e.0) (add_range-NoneMerge b blocks m)

-- If the statements stand on ascending lines from the line `n` on, then their blocks follow each other
-- without a gap or an overlap from there to the last line, and of two neighbours at least one has a
-- statement of several lines.
pub get_global_statement_blocks-Tile :
    (n count : ℕ) (statements : List ℕ)
    → Ascend (suc n) count statements
    → let blocks : List Block = get_global_statement_blocks (n ∷ statements) count in
      Tile n count blocks × NoneMerge blocks
unfolding get_global_statement_blocks
get_global_statement_blocks-Tile n count statements a =
    let b : Block = statement_block n (end_line_number count statements) in
    let e = end-Ascend n count statements a in
    statement_ranges-Tile n b.end_line count statements (b ∷ []) e.1 e.2 (refl, e.0, refl) tt
