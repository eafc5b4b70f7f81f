-- ===== src/Normalize/Removed.antt =====
-- Which lines the first step deletes.
use python_vscode.Prelude.{
  ℕ, zero, suc, ◌≤◌, ◌<◌, ◌≡◌, refl, ◌∙◌, Text, Bool, true, some, List, [], ◌∷◌, if◌then◌else◌,
  arith, get_elem?,
}
use python_vscode.Normalize.{delete_at, delete_lines, is_blank}

module _ (is_space : ℕ → Bool) where
  -- The lines that are not blank.
  unfoldable pub code_lines : List Text → List Text
  code_lines [] = []
  code_lines (l ∷ lines) =
      let more = code_lines lines in if is_blank is_space l then more else l ∷ more

  -- The row is one of the lines, and that is blank.
  abbrev pub BlankRow : List Text → ℕ → Type 0
  BlankRow lines zero = ⊥
  BlankRow lines (suc i) = (l : Text) × (get_elem? lines i ≡ some l) × (is_blank is_space l ≡ true)

  -- The rows ascend from `low` on, and they are blank.
  abbrev pub BlankRows : List Text → ℕ → List ℕ → Type 0
  BlankRows lines low [] = Unit
  BlankRows lines low (n ∷ rows) = (low ≤ n) × BlankRow lines n × BlankRows lines (suc n) rows

  -- A blank line is deleted: the lines before it stay, and so do those that are not blank.
  delete_at_lem :
      (i : ℕ) (lines : List Text) (l : Text)
      → get_elem? lines i ≡ some l
      → is_blank is_space l ≡ true
      → (out : List Text) × (delete_at i lines ≡ some out)
        × ((j : ℕ) → j < i → get_elem? out j ≡ get_elem? lines j)
        × (code_lines out ≡ code_lines lines)
  unfolding delete_at code_lines
  delete_at_lem i [] l g b = absurd (ground arith)
  delete_at_lem zero (m ∷ lines) l g b =
      (lines, refl, λ j h. absurd (omega arith), ground (arith, g, b))
  delete_at_lem (suc i) (m ∷ lines) l g b =
      let (out, e, same, kept) = delete_at_lem i lines l g b in
      (m ∷ out, rw e, before out same, rw kept)
    where
      before :
          (out : List Text)
          → ((j : ℕ) → j < i → get_elem? out j ≡ get_elem? lines j)
          → (j : ℕ) → j < suc i
          → get_elem? (m ∷ out) j ≡ get_elem? (m ∷ lines) j
      before out same zero h = refl
      before out same (suc j) h = same j (omega arith)

  pub delete_lines_lem :
      (low : ℕ) (rows : List ℕ) (lines : List Text)
      → BlankRows lines low rows
      → (out : List Text) × (delete_lines rows lines ≡ some out)
        × ((j : ℕ) → suc j < low → get_elem? out j ≡ get_elem? lines j)
        × (code_lines out ≡ code_lines lines)
  unfolding delete_lines
  delete_lines_lem low [] lines h = (lines, refl, λ j h. refl, refl)
  delete_lines_lem low (zero ∷ rows) lines h = absurd h.1
  delete_lines_lem low (suc n ∷ rows) lines h =
      let (rest, e, same, kept) = delete_lines_lem (suc (suc n)) rows lines h.2 in
      let (l, g, b) = h.1 in
      let (out, d, before, code) = delete_at_lem n rest l (same n (omega arith) ∙ g) b in
      (out, rw (e, d), λ j i. before j (omega arith) ∙ same j (omega arith), code ∙ kept)
