-- ===== src/Debugger/Django/Ranges.antt =====
-- Which breakpoint a template's node hits.
use native.Mathlib.Nat.{zero-add}
use python_vscode.Prelude.{
  ℕ, zero, suc, ◌+◌, ◌-◌, ◌≤◌, ◌<◌, ◌≡◌, refl, sym, subst, ap, ◌∙◌, Text, Bool, true, false, Option,
  none, some, List, [], ◌∷◌, arith, nat_eq, ◌⊎◌, inl, inr, Option-cases,
}
use python_vscode.Prelude.Dict.{Dict, lookup}
use python_vscode.Debugger.Django.{
  DjangoBreakpointInfo, line_lengths, line_len, line_info, bisect_right, first_breakpoint,
  answer_of, break_in, range_in, locations_of, should_break,
}

abbrev pub total : List ℕ → ℕ
total [] = 0
total (n ∷ ns) = n + total ns

-- The offset `x` from `base` on is in the line `k`, counted from 0.
abbrev pub InLine : List ℕ → ℕ → ℕ → Type 0
InLine [] k x = ⊥
InLine (n ∷ ns) zero x = x < n
InLine (n ∷ ns) (suc k) x = (n ≤ x) × InLine ns k (x - n)

bisect_right-line_info :
    (base : ℕ) (first : Bool) (lines : List Text) (k x : ℕ)
    → InLine (line_lengths first lines) k x
    → bisect_right (line_info base first lines) (base + x) ≡ k
unfolding bisect_right line_info
bisect_right-line_info base first [] k x h = absurd h
bisect_right-line_info base first (l ∷ lines) zero x h = ground arith
bisect_right-line_info base first (l ∷ lines) (suc k) x h =
    let n : ℕ = line_len first l in
    let e : base + x ≡ (base + n) + (x - n) = omega (arith, h.0) in
    let more : bisect_right (line_info (base + n) false lines) (base + x) ≡ k =
      rw e (bisect_right-line_info (base + n) false lines k (x - n) h.1) in
    ground (arith, h.0, more)

-- No breakpoint stands on `count` lines from `i` on.
abbrev pub NoneOn : Dict ℕ ℕ → ℕ → ℕ → Type 0
NoneOn breakpoints i zero = Unit
NoneOn breakpoints i (suc count) = (lookup i breakpoints ≡ none) × NoneOn breakpoints (suc i) count

-- The answer is the first breakpoint of `count` lines from `i` on, if there is one.
abbrev pub IsFirst : Dict ℕ ℕ → ℕ → ℕ → Bool × ℕ → Type 0
IsFirst breakpoints i count answer =
    ((before : ℕ) × (id : ℕ) × (before < count)
      × NoneOn breakpoints i before
      × (lookup (i + before) breakpoints ≡ some id)
      × (answer ≡ (true, id)))
    ⊎ (NoneOn breakpoints i count × (answer ≡ (false, 0)))

first_breakpoint-IsFirst :
    (breakpoints : Dict ℕ ℕ) (i count : ℕ)
    → IsFirst breakpoints i count (answer_of (first_breakpoint i count breakpoints))
unfolding first_breakpoint
first_breakpoint-IsFirst breakpoints i zero = inr (tt, refl)
first_breakpoint-IsFirst breakpoints i (suc count) = elim (Option-cases (lookup i breakpoints)) [
  | inr (id, e) ↦
      let z : i + 0 ≡ i = omega arith in inl (0, id, omega arith, tt, rw z e, rw (answer_of, e))
  | inl e ↦ elim (first_breakpoint-IsFirst breakpoints (suc i) count) [
    | inl (before, id, l, n, f, a) ↦
        let z : i + suc before ≡ suc i + before = omega arith in
        inl (suc before, id, omega (arith, l), (e, n), rw z f, rw (answer_of, e) a)
    | inr (n, a) ↦ inr ((e, n), rw (answer_of, e) a)
  ]
]

-- The offsets that are known of a file: none yet, or those of its lines
abbrev pub IsKnown : Option (List ℕ) → List Text → Type 0
IsKnown known lines = (known ≡ none) ⊎ (known ≡ some (line_info 0 true lines))

located :
    (read : Text → Option (List Text)) (known : Option (List ℕ)) (file : Text) (lines : List Text)
    → IsKnown known lines
    → read file ≡ some lines
    → locations_of read known file ≡ some (line_info 0 true lines)
located read none file lines u r = rw (locations_of, r)
located read (some x) file lines (inl e) r = cc
located read (some x) file lines (inr e) r = e

-- If the file of a template can be read, and the offsets of its lines are not known yet, or are known from
-- the same lines, and a node of it reaches from the line `k` to the line `l`,
-- both counted from 0 in the lengths that Django gives to the lines, then the node hits the first
-- breakpoint that stands on one of these lines, counted from 1, and none if no breakpoint does.
pub should_break_lem :
    (read : Text → Option (List Text)) (info : DjangoBreakpointInfo) (lines : List Text)
    (start end k l : ℕ)
    → IsKnown info.known_locations lines
    → read info.filename ≡ some lines
    → InLine (line_lengths true lines) k start
    → InLine (line_lengths true lines) l end
    → IsFirst info.breakpoints (k + 1) (l + 1 - k) (should_break read start end info).0
unfolding should_break
should_break_lem read info lines start end k l u r p q =
    let low : bisect_right (line_info 0 true lines) start ≡ k =
      rw⁻¹ (zero-add start) (bisect_right-line_info 0 true lines k start p) in
    let high : bisect_right (line_info 0 true lines) end ≡ l =
      rw⁻¹ (zero-add end) (bisect_right-line_info 0 true lines l end q) in
    let found : locations_of read info.known_locations info.filename
        ≡ some (line_info 0 true lines) =
      located read info.known_locations info.filename lines u r in
    let shown : (should_break read start end info).0
        ≡ answer_of (first_breakpoint (k + 1) (l + 1 - k) info.breakpoints) =
      ap (λ o. break_in info.breakpoints (range_in start end o)) found
      ∙ ap
          (λ a. answer_of (
            first_breakpoint (a + 1) (bisect_right (line_info 0 true lines) end + 1 - a)
              info.breakpoints))
          low
      ∙ ap (λ b. answer_of (first_breakpoint (k + 1) (b + 1 - k) info.breakpoints)) high in
    subst (IsFirst info.breakpoints (k + 1) (l + 1 - k)) (sym shown)
      (first_breakpoint-IsFirst info.breakpoints (k + 1) (l + 1 - k))
