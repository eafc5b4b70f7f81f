-- ===== src/Debugger/Check/Visits.antt =====
-- A breakpoint over a run of line events on its line.
use native.Mathlib.Nat.{zero-add, zero-div, div-add-mod', div-eq_of_lt-le, mod-lt}
use native.Mathlib.Decide.{dec_lt}
use python_vscode.Prelude.{
  Eq, ◌&&◌, ℕ, suc, ◌+◌, ◌-◌, ◌/◌, ◌%◌, ◌≤◌, ◌<◌, ◌≡◌, refl, ap, Bool, true, false, Option, none,
  some, List, [], ◌∷◌, map, arith, ltb, leb, ◌==◌, if◌then◌else◌, length,
}
use python_vscode.Debugger.Check.{
  BreakpointInfo, Host, condition_always, condition_when_changed, pass_count_always,
  pass_count_every, pass_count_when_equal, pass_count_when_equal_or_greater, check,
}

-- How many of them report the breakpoint.
abbrev pub reports : List (Option Bool) → ℕ
reports [] = 0
reports (some true ∷ rs) = suc (reports rs)
reports (some false ∷ rs) = reports rs
reports (none ∷ rs) = reports rs

div-step : (n p : ℕ) → 0 < p → (n + 1) / p ≡ n / p + (if (n + 1) % p == 0 then 1 else 0)
div-step n p h = elim (dec_lt (n % p + 1) p) [
  | yes small ↦
      let e : (n + 1) / p ≡ n / p =
        div-eq_of_lt-le p (omega (arith, div-add-mod' n p)) (omega (arith, div-add-mod' n p)) in
      ground (arith, e, rw e at (div-add-mod' (n + 1) p), div-add-mod' n p)
  | no big ↦
      let e : (n + 1) / p ≡ n / p + 1 =
        div-eq_of_lt-le p (omega (arith, div-add-mod' n p, mod-lt n h))
          (omega (arith, div-add-mod' n p, mod-lt n h)) in
      ground (arith, e, rw e at (div-add-mod' (n + 1) p), div-add-mod' n p, mod-lt n h)
]

module _ {V : Type 0} where
  -- The reports of the line events, each in the frame that `h` stands for.
  abbrev pub visits : List (Host V) → BreakpointInfo V → List (Option Bool)
  visits [] bp = []
  visits (h ∷ hs) bp = let (r, bp') = check h bp in r ∷ visits hs bp'

-- The number of reports in `m` line events, by the kind of the pass count.
abbrev pub expected : ℕ → ℕ → ℕ → ℕ
expected kind p m =
    if kind == pass_count_every
    then m / p
    else if kind == pass_count_when_equal
    then (if leb p m then 1 else 0)
    else if kind == pass_count_when_equal_or_greater
    then m - (p - 1)
    else m

module _ {V : Type 0} where
  every-from :
      (hs : List (Host V)) (bp : BreakpointInfo V)
      → bp.condition_kind ≡ condition_always
      → bp.pass_count_kind ≡ pass_count_every
      → 0 < bp.pass_count
      → reports (visits hs bp) + bp.hit_count / bp.pass_count
        ≡ (bp.hit_count + length hs) / bp.pass_count
  unfolding check
  every-from [] bp k q p = ground arith
  every-from (h ∷ hs) bp k q p = ground (
    arith,
    every-from hs (record bp { hit_count = bp.hit_count + 1 }),
    div-step bp.hit_count bp.pass_count,
  )

  equal-from :
      (hs : List (Host V)) (bp : BreakpointInfo V)
      → bp.condition_kind ≡ condition_always
      → bp.pass_count_kind ≡ pass_count_when_equal
      → reports (visits hs bp) ≡ (
          if ltb bp.hit_count bp.pass_count && leb bp.pass_count (bp.hit_count + length hs)
          then 1
          else 0)
  unfolding check
  equal-from [] bp k q = ground arith
  equal-from (h ∷ hs) bp k q =
      ground (arith, equal-from hs (record bp { hit_count = bp.hit_count + 1 }))

  equal_or_greater-from :
      (hs : List (Host V)) (bp : BreakpointInfo V)
      → bp.condition_kind ≡ condition_always
      → bp.pass_count_kind ≡ pass_count_when_equal_or_greater
      → 0 < bp.pass_count
      → reports (visits hs bp) + (bp.hit_count + 1 - bp.pass_count)
        ≡ bp.hit_count + length hs + 1 - bp.pass_count
  unfolding check
  equal_or_greater-from [] bp k q p = ground arith
  equal_or_greater-from (h ∷ hs) bp k q p =
      ground (arith, equal_or_greater-from hs (record bp { hit_count = bp.hit_count + 1 }))

  always-from :
      (hs : List (Host V)) (bp : BreakpointInfo V)
      → bp.condition_kind ≡ condition_always
      → bp.pass_count_kind ≡ pass_count_always
      → reports (visits hs bp) ≡ length hs
  unfolding check
  always-from [] bp k q = refl
  always-from (h ∷ hs) bp k q =
      ground (arith, always-from hs (record bp { hit_count = bp.hit_count + 1 }))

  -- Of `m` line events on the line of a breakpoint with no condition, no hits so far and a pass
  -- count `p` that is not 0, those that report it are as many as `expected` says: all `m` with no
  -- pass count, `m / p` with "every p", one or none with "equal to p" as `p` is at most `m` or not,
  -- and all but the first `p - 1` with "at least p".
  pub reports-visits :
      (hs : List (Host V)) (bp : BreakpointInfo V)
      → bp.condition_kind ≡ condition_always
      → bp.hit_count ≡ 0
      → 0 < bp.pass_count
      → bp.pass_count_kind ≤ pass_count_when_equal_or_greater
      → reports (visits hs bp) ≡ expected bp.pass_count_kind bp.pass_count (length hs)
  reports-visits hs bp k z p l = ground (
    arith,
    always-from hs bp k,
    every-from hs bp k,
    equal-from hs bp k,
    equal_or_greater-from hs bp k,
    zero-div bp.pass_count,
    ap (λ n. n / bp.pass_count) z,
    ap (λ n. (n + length hs) / bp.pass_count) z,
    ap (λ n. n / bp.pass_count) (zero-add (length hs)),
  )

-- The first value, and each that differs from the one before it.
module _ {V : Type 0} ⦃e : Eq V⦄ where
  abbrev pub changes : Option V → List V → ℕ
  changes last [] = 0
  changes none (v ∷ vs) = suc (changes (some v) vs)
  changes (some u) (v ∷ vs) = let rest = changes (some v) vs in if e.beq u v then rest else suc rest

  -- A frame in which the condition has the value `v`, and `==` compares as the type does.
  abbrev pub frame : V → Host V
  frame v = record {
    evaluate = λ _. some v;
    equal = λ a b. some (e.beq a b);
    truth = λ _. some true;
  }

  -- A "when changed" breakpoint with no pass count reports the first value of its condition and
  -- each value that differs from the one before it, and no other, whatever the values.
  pub reports-visits_changed :
      (vs : List V) (bp : BreakpointInfo V)
      → bp.condition_kind ≡ condition_when_changed
      → bp.pass_count_kind ≡ pass_count_always
      → reports (visits (map frame vs) bp) ≡ changes bp.last_condition_value vs
  unfolding check
  reports-visits_changed [] bp k q = refl
  reports-visits_changed (v ∷ vs) bp k q = ground (
    arith,
    reports-visits_changed vs
        (record bp { hit_count = bp.hit_count + 1; last_condition_value = some v }),
    reports-visits_changed vs (record bp { last_condition_value = some v }),
  )
