-- ===== src/Debugger/Django/Lines/Counted.antt =====
-- What the offset of a line and the line of an offset are.
use python_vscode.Prelude.{
  ℕ, zero, suc, ◌+◌, ◌-◌, ◌<◌, Text, Bool, true, false, not, ◌&&◌, some, List, [], ◌∷◌, ◌==◌, leb,
  if◌then◌else◌, length, take, get_elem?, ◌≡◌, refl, ap, arith, Option-cases, inl, inr,
}
use python_vscode.Prelude.Int.{pos}
use python_vscode.Debugger.Django.{bisect_right, range_in}
use python_vscode.Debugger.Django.Lines.{walk_lines, offset_to_line_number, offsets_in}

-- The line breaks that begin in a text: \n, \r and \r\n; is the text after a \r?
abbrev pub breaks : Bool → Text → ℕ
breaks after_cr [] = 0
breaks after_cr (c ∷ t) =
    (if c == b'\r' then 1 else if c == b'\n' && not after_cr then 1 else 0) + breaks (c == b'\r') t

walk_lines-breaks :
    (line n : ℕ) (t : Text)
    → n < length t
    → walk_lines line n t ≡ some (pos (line + breaks false (take n t)))
unfolding walk_lines
walk_lines-breaks line zero t h = ground arith
walk_lines-breaks line (suc n) [] h = absurd (omega arith)
walk_lines-breaks line (suc n) (c ∷ []) h = absurd (omega arith)
walk_lines-breaks line (suc zero) (c ∷ d ∷ t) h = ground arith
walk_lines-breaks line (suc (suc n)) (c ∷ d ∷ t) h =
    let e : suc n - 1 ≡ n = omega arith in
    rw e (
      ground (
        arith,
        walk_lines-breaks (line + 1) n t (omega arith),
        walk_lines-breaks (line + 1) (suc n) (d ∷ t) (omega arith),
        walk_lines-breaks line (suc n) (d ∷ t) (omega arith),
      ))

-- Of an offset inside of the text, the line is one more than the line breaks that begin before it, where \r\n
-- is one.
pub offset_to_line_number-breaks :
    (t : Text) (offset : ℕ)
    → offset < length t
    → offset_to_line_number t offset ≡ some (pos (1 + breaks false (take offset t)))
unfolding offset_to_line_number
offset_to_line_number-breaks t offset h = walk_lines-breaks 1 offset t h

-- The offsets ascend.
abbrev pub AreAscending : ℕ → List ℕ → Type 0
AreAscending n [] = Unit
AreAscending n (m ∷ ms) = (n < m) × AreAscending m ms

lt-get_elem? :
    (n : ℕ) (ms : List ℕ) (i : ℕ) {k : ℕ} → AreAscending n ms → get_elem? ms i ≡ some k → n < k
lt-get_elem? n [] i h e = absurd (cc e)
lt-get_elem? n (m ∷ ms) zero h e = ground (arith, h.0)
lt-get_elem? n (m ∷ ms) (suc i) {k} h e =
    let l : m < k = lt-get_elem? m ms i h.1 e in omega (arith, h.0)

bisect_right-below : (n : ℕ) (ms : List ℕ) → AreAscending n ms → bisect_right ms n ≡ 0
unfolding bisect_right
bisect_right-below n [] h = refl
bisect_right-below n (m ∷ ms) h = ground (arith, h.0)

bisect_right-get_elem? :
    (n : ℕ) (ms : List ℕ) (i : ℕ) {k : ℕ}
    → AreAscending n ms
    → get_elem? ms i ≡ some k
    → bisect_right ms k ≡ suc i
unfolding bisect_right
bisect_right-get_elem? n [] i h e = absurd (cc e)
bisect_right-get_elem? n (m ∷ ms) zero {k} h e =
    let q : m ≡ k = cc e in
    let t : leb m m ≡ true = ground arith in rw (← q) (rw t (ap suc (bisect_right-below m ms h.1)))
bisect_right-get_elem? n (m ∷ ms) (suc i) {k} h e =
    let l : m < k = lt-get_elem? m ms i h.1 e in
    let t : leb m k ≡ true = ground arith in rw t (ap suc (bisect_right-get_elem? m ms i h.1 e))

-- The offsets that are taken for a line of a file whose lines are not empty stand for the two lines after it:
-- counted from 0, as the search for a breakpoint counts, that is the line's number and the next one.
pub range_in-offsets_in :
    (locations : List ℕ) (line low hi : ℕ)
    → AreAscending 0 locations
    → 0 < line
    → offsets_in line (some locations) ≡ some (some (low, hi))
    → range_in low hi (some locations) ≡ some (line, line + 1)
range_in-offsets_in locations line low hi h p e =
    elim (Option-cases (get_elem? locations (line - 1))) [
      | inl n ↦ absurd (cc (rw n at e))
      | inr (a, ea) ↦ elim (Option-cases (get_elem? locations line)) [
        | inl n ↦ absurd (cc (rw (ea, n) at e))
        | inr (b, eb) ↦
            let q : a ≡ low = cc (rw (ea, eb) at e) in
            let r : b ≡ hi = cc (rw (ea, eb) at e) in
            let la : bisect_right locations a ≡ suc (line - 1) =
              bisect_right-get_elem? 0 locations (line - 1) h ea in
            let lb : bisect_right locations b ≡ suc line =
              bisect_right-get_elem? 0 locations line h eb in
            let t : suc (line - 1) ≡ line = omega arith in
            let u : suc line ≡ line + 1 = omega arith in rw (← q, ← r, la, lb, t, u) refl
      ]
    ]
