-- ===== src/SafeRepr/Truncate.antt =====
-- `_repr_obj`: a text that is longer than the limit keeps its start and its end.
use python_vscode.Prelude.{
  ℕ, zero, suc, ◌+◌, ◌-◌, ◌*◌, ◌/◌, ◌%◌, ◌≤◌, ◌<◌, ◌≡◌, Text, [], ◌∷◌, ◌++◌, arith, ltb, leb,
  if◌then◌else◌, length, take, drop, codes, length-append, length-take, length-drop, Bool-cases,
  inl, inr, ◌⊎◌,
}

abbrev pub at_least_one : ℕ → ℕ
at_least_one n = if ltb 1 n then n else 1

-- `obj_repr[-n:]`
abbrev pub last : ℕ → Text → Text
last n t = drop (length t - n) t

unfoldable pub truncate : ℕ → Text → Text
truncate limit obj_repr =
    let left_count : ℕ = at_least_one (2 * limit / 3) in
    let right_count : ℕ = at_least_one (limit / 3) in
    if leb (length obj_repr) limit
    then obj_repr
    else take left_count obj_repr ++ (codes "..." ++ last right_count obj_repr)

unfoldable pub repr_obj : Text → ℕ → ℕ → ℕ → Text
repr_obj obj_repr level limit_inner limit_outer =
    truncate (if ltb 0 level then limit_inner else limit_outer) obj_repr

-- `'%s' % n`; the number is fuel enough for its digits.
decimal_loop : ℕ → ℕ → Text
decimal_loop zero n = []
decimal_loop (suc fuel) n =
    let more = decimal_loop fuel (n / 10) in
    if ltb n 10 then (48 + n) ∷ [] else more ++ (48 + n % 10) ∷ []

unfoldable pub decimal : ℕ → Text
unfolding decimal_loop
decimal n = decimal_loop (suc n) n

-- With a limit of at least 3, a text within the limit is kept whole; a longer one keeps its first
-- two thirds and its last third of the limit, and three dots between them make it at most three
-- characters longer than the limit.
pub truncate_lem :
    (limit : ℕ) (t : Text)
    → 3 ≤ limit
    → ((length t ≤ limit) × (truncate limit t ≡ t))
      ⊎ ((limit < length t)
          × (truncate limit t ≡ take (2 * limit / 3) t ++ (codes "..." ++ last (limit / 3) t))
          × (length (truncate limit t) ≤ limit + 3))
unfolding truncate
truncate_lem limit t h = elim (Bool-cases (leb (length t) limit)) [
  | inl short ↦ inl (ground arith, rw short)
  | inr long ↦ inr (
    ground arith,
    rw (long, wide_left, wide_right),
    rw (long, wide_left, wide_right)
        (omega (
          arith,
          length-append (take (2 * limit / 3) t) (codes "..." ++ last (limit / 3) t),
          length-take (2 * limit / 3) t,
          length-drop (length t - limit / 3) t,
        )),
  )
]
  where
    wide_left : at_least_one (2 * limit / 3) ≡ 2 * limit / 3
    wide_left = ground arith

    wide_right : at_least_one (limit / 3) ≡ limit / 3
    wide_right = ground arith
