-- ===== src/Refactor/Requests/Turns.antt =====
-- The loop past the end of its input.
use python_vscode.Prelude.{
  ℕ, zero, suc, ◌+◌, ◌≡◌, refl, sym, ap, Text, none, List, [], ◌∷◌, ◌++◌, append_assoc, length,
  arith,
}
use python_vscode.Refactor.{Platform}
use python_vscode.Refactor.Requests.{Rope, Output, started, error, process_request, turns, watch}

abbrev pub errors : ℕ → List Output
errors zero = []
errors (suc n) = error ∷ errors n

zero_plus : (n : ℕ) → 0 + n ≡ n
zero_plus n = omega arith

suc_plus : (m n : ℕ) → suc m + n ≡ suc (m + n)
suc_plus m n = omega arith

module _ (p : Platform) (rope : Rope) where
  -- What the lines themselves write
  abbrev pub lines_written : List Text → List Output
  lines_written [] = []
  lines_written (l ∷ lines) = process_request p rope l ++ lines_written lines

  turns-errors : (n : ℕ) → rope.loads [] ≡ none → turns p rope n [] ≡ errors n
  unfolding turns process_request
  turns-errors zero e = refl
  turns-errors (suc n) e = rw (e, turns-errors n e)

  turns-add :
      (n : ℕ) (lines : List Text)
      → rope.loads [] ≡ none
      → turns p rope (length lines + n) lines ≡ lines_written lines ++ errors n
  unfolding turns
  turns-add n [] e = rw (zero_plus n) (turns-errors n e)
  turns-add n (l ∷ lines) e = rw (suc_plus (length lines) n) (
      rw (turns-add n lines e)
        (sym (append_assoc (process_request p rope l) (lines_written lines) (errors n))))

  -- The loop does not end with its input: if the empty text is no JSON, then after the lines of the
  -- input, each of which is processed once and in order, every further turn writes an error,
  -- however many turns there are.
  pub watch-errors :
      (n : ℕ) (lines : List Text)
      → rope.loads [] ≡ none
      → watch p rope (length lines + n) lines ≡ started ∷ (lines_written lines ++ errors n)
  unfolding watch
  watch-errors n lines e = ap (λ os. started ∷ os) (turns-add n lines e)
