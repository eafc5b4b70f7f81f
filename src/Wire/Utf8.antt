-- ===== src/Wire/Utf8.antt =====
-- The `utf_8` codec: strict, so overlong forms, surrogates and numbers past 0x10ffff are refused.
pub mod RoundTrip
use python_vscode.Prelude.{
  ℕ, zero, suc, ◌+◌, ◌-◌, ◌*◌, ◌/◌, ◌%◌, ◌≤◌, ◌<◌, Text, ◌≡◌, refl, Bool, true, false, ◌&&◌, ◌||◌,
  Option, none, some, [], ◌∷◌, ◌++◌, arith, ltb, leb, if◌then◌else◌, length, length-append,
  append_assoc,
}

abbrev is_surrogate : ℕ → Bool
is_surrogate c = leb 0xd800 c && ltb c 0xe000

pub encode_one : ℕ → Option Text
encode_one c =
    if ltb c 0x80
    then some (c ∷ [])
    else if ltb c 0x800
    then some ((0xc0 + c / 64) ∷ (0x80 + c % 64) ∷ [])
    else if is_surrogate c
    then none
    else if ltb c 0x10000
    then some ((0xe0 + c / 4096) ∷ (0x80 + c / 64 % 64) ∷ (0x80 + c % 64) ∷ [])
    else if ltb c 0x110000
    then some
        ((0xf0 + c / 262144) ∷ (0x80 + c / 4096 % 64) ∷ (0x80 + c / 64 % 64) ∷ (0x80 + c % 64) ∷ [])
    else none

pub join : Option Text → Option Text → Option Text
join (some s) (some t) = some (s ++ t)
join (some s) none = none
join none t = none

unfoldable pub encode : Text → Option Text
unfolding encode_one join
encode [] = some []
encode (c ∷ s) = join (encode_one c) (encode s)

abbrev is_tail : ℕ → Bool
is_tail b = leb 0x80 b && ltb b 0xc0

pub two : ℕ → Text → Option (ℕ × Text)
two a (b ∷ r) = if is_tail b then some ((a - 0xc0) * 64 + (b - 0x80), r) else none
two a [] = none

pub three : ℕ → Text → Option (ℕ × Text)
three a (b ∷ d ∷ r) =
    let c : ℕ = ((a - 0xe0) * 64 + (b - 0x80)) * 64 + (d - 0x80) in
    if is_tail b && is_tail d
    then (if ltb c 0x800 || is_surrogate c then none else some (c, r))
    else none
three a _ = none

pub four : ℕ → Text → Option (ℕ × Text)
four a (b ∷ d ∷ e ∷ r) =
    let c : ℕ = (((a - 0xf0) * 64 + (b - 0x80)) * 64 + (d - 0x80)) * 64 + (e - 0x80) in
    if is_tail b && (is_tail d && is_tail e)
    then (if ltb c 0x10000 || leb 0x110000 c then none else some (c, r))
    else none
four a _ = none

pub decode_one : ℕ → Text → Option (ℕ × Text)
decode_one a r =
    if ltb a 0x80
    then some (a, r)
    else if ltb a 0xc2
    then none
    else if ltb a 0xe0
    then two a r
    else if ltb a 0xf0
    then three a r
    else if ltb a 0xf5
    then four a r
    else none

abbrev pub cons_decoded : ℕ → Option Text → Option Text
cons_decoded c none = none
cons_decoded c (some s) = some (c ∷ s)

-- A character takes at least one byte, so the number of bytes is fuel enough.
pub decode_loop : ℕ → Text → Option Text
decode_loop _ [] = some []
decode_loop zero (a ∷ r) = none
decode_loop (suc fuel) (a ∷ r) = elim (decode_one a r) [
  | none ↦ none
  | some (c, r') ↦ cons_decoded c (decode_loop fuel r')
]

unfoldable pub decode : Text → Option Text
unfolding decode_loop decode_one two three four
decode b = decode_loop (length b) b
