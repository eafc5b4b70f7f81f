-- ===== src/Completion/Definitions/Ranges.antt =====
-- Ranges of definitions.
use python_vscode.Prelude.{
  ℕ, zero, suc, ◌≤◌, ◌≡◌, refl, subst, Text, Bool, false, Option, none, some, List, arith,
  Bool-cases, Option-cases, [], ◌∷◌, inl, inr, length,
}
use python_vscode.Prelude.Int.{ℤ, pos, negsuc, suc_ℤ, pred_ℤ, add_ℕ, ltb_ℤ}
use python_vscode.Prelude.Texts.{split, join, rstrip}
use python_vscode.Completion.Jedi.{Tree, Definition}
use python_vscode.Completion.Definitions.{Range, is_scope, tree_range, line_range, extract_range}

-- Trees do not end before they start.
abbrev pub IsForward : Option Tree → Type 0
IsForward none = Unit
IsForward (some t) = t.start.line ≤ t.stop.line

ltb_ℤ-irrefl : (n : ℤ) → ltb_ℤ n n ≡ false
ltb_ℤ-irrefl (pos n) = ground arith
ltb_ℤ-irrefl (negsuc n) = ground arith

ltb_ℤ-suc_ℤ : (m n : ℤ) → ltb_ℤ m n ≡ false → ltb_ℤ (suc_ℤ m) n ≡ false
ltb_ℤ-suc_ℤ (pos m) (pos n) h = ground arith
ltb_ℤ-suc_ℤ (pos m) (negsuc n) h = refl
ltb_ℤ-suc_ℤ (negsuc zero) (pos n) h = cc
ltb_ℤ-suc_ℤ (negsuc (suc m)) (pos n) h = cc
ltb_ℤ-suc_ℤ (negsuc zero) (negsuc n) h = refl
ltb_ℤ-suc_ℤ (negsuc (suc m)) (negsuc n) h = ground arith

ltb_ℤ-add_ℕ : (n : ℤ) (k : ℕ) → ltb_ℤ (add_ℕ n k) n ≡ false
ltb_ℤ-add_ℕ n zero = ltb_ℤ-irrefl n
ltb_ℤ-add_ℕ n (suc k) = ltb_ℤ-suc_ℤ (add_ℕ n k) n (ltb_ℤ-add_ℕ n k)

ltb_ℤ-pred_ℤ : (a b : ℕ) → a ≤ b → ltb_ℤ (pred_ℤ (pos b)) (pred_ℤ (pos a)) ≡ false
ltb_ℤ-pred_ℤ zero zero h = ground arith
ltb_ℤ-pred_ℤ zero (suc b) h = refl
ltb_ℤ-pred_ℤ (suc a) zero h = absurd (omega arith)
ltb_ℤ-pred_ℤ (suc a) (suc b) h = ground arith

-- The range does not end on a line before its first.
abbrev pub IsOrdered : Range → Type 0
IsOrdered r = ltb_ℤ r.end_line r.start_line ≡ false

abbrev AllOrdered : Option Range → Type 0
AllOrdered none = Unit
AllOrdered (some r) = IsOrdered r

line_range-IsOrdered :
    (line column : Option ℕ) (r : Range) → line_range line column ≡ some r → IsOrdered r
line_range-IsOrdered none column r h = cc
line_range-IsOrdered (some line) column r h = subst AllOrdered h (ltb_ℤ-irrefl (pred_ℤ (pos line)))

module _ (split_lines : Text → List Text) (is_space : ℕ → Bool) where
  tree_range-IsOrdered :
      (kind : Text) (t : Tree)
      → t.start.line ≤ t.stop.line
      → IsOrdered (tree_range split_lines is_space kind t)
  unfolding tree_range
  tree_range-IsOrdered kind t h = elim (Bool-cases (is_scope kind)) [
    | inl s ↦ rw s (
        ltb_ℤ-add_ℕ (pred_ℤ (pos t.start.line))
          (length (split 10 (rstrip is_space (join (10 ∷ []) (split_lines t.code)))).1))
    | inr n ↦ rw n (ltb_ℤ-pred_ℤ t.start.line t.stop.line h)
  ]

  -- If the symbol of a definition does not end on a line before it starts, then neither does the range
  -- that is found for the definition, whatever its type and also where the syntax tree fails.
  pub extract_range-IsOrdered :
      (d : Definition) (r : Range)
      → IsForward d.tree
      → extract_range split_lines is_space d ≡ some r
      → IsOrdered r
  unfolding extract_range
  extract_range-IsOrdered d r f h = elim (Option-cases d.tree) [
    | inl n ↦ line_range-IsOrdered d.line d.column r (rw n at h)
    | inr (t, s) ↦ subst AllOrdered (rw s at h) (tree_range-IsOrdered d.kind t (rw s at f))
  ]
