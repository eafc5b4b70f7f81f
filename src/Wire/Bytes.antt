-- ===== src/Wire/Bytes.antt =====
-- `struct.pack('!q', i)` and `struct.unpack('!q', b)`: eight bytes, the most significant first, of a
-- 64-bit two's complement integer. Out of range, or at another length, they raise `struct.error`.
use native.Mathlib.Nat.{pow-suc}
use python_vscode.Prelude.{
  ℕ, zero, suc, ◌+◌, ◌-◌, ◌*◌, ◌/◌, ◌%◌, ◌^◌, ◌<◌, Text, ◌≡◌, refl, Option, none, some, [], ◌∷◌,
  ◌++◌, arith, ltb, ◌==◌, if◌then◌else◌, length, length-append,
}
use python_vscode.Prelude.Int.{ℤ, pos, negsuc}

big_endian : ℕ → ℕ → Text
big_endian zero v = []
big_endian (suc k) v = big_endian k (v / 256) ++ (v % 256) ∷ []

from_big_endian : ℕ → Text → ℕ
from_big_endian acc [] = acc
from_big_endian acc (b ∷ bs) = from_big_endian (acc * 256 + b) bs

abbrev pub half : ℕ
half = 2 ^ 63

-- The 64-bit pattern of an integer in range.
abbrev pattern_of : ℤ → Option ℕ
pattern_of (pos n) = if ltb n half then some n else none
pattern_of (negsuc n) = if ltb n half then some (2 ^ 64 - 1 - n) else none

abbrev integer_of : ℕ → ℤ
integer_of v = if ltb v half then pos v else negsuc (2 ^ 64 - 1 - v)

abbrev map_option : {A B : Type 0} → (A → B) → Option A → Option B
map_option f none = none
map_option f (some a) = some (f a)

unfoldable pub pack_q : ℤ → Option Text
unfolding big_endian
pack_q i = map_option (big_endian 8) (pattern_of i)

unfoldable pub unpack_q : Text → Option ℤ
unfolding from_big_endian
unpack_q b = if length b == 8 then some (integer_of (from_big_endian 0 b)) else none

length-big_endian : (k v : ℕ) → length (big_endian k v) ≡ k
unfolding big_endian
length-big_endian zero v = refl
length-big_endian (suc k) v =
    omega (
      arith,
      length-append (big_endian k (v / 256)) ((v % 256) ∷ []),
      length-big_endian k (v / 256),
    )

from_big_endian-snoc :
    (acc : ℕ) (bs : Text) (b : ℕ)
    → from_big_endian acc (bs ++ b ∷ []) ≡ from_big_endian acc bs * 256 + b
unfolding from_big_endian
from_big_endian-snoc acc [] b = refl
from_big_endian-snoc acc (x ∷ bs) b = from_big_endian-snoc (acc * 256 + x) bs b

from_big_endian-big_endian : (k v : ℕ) → v < 256 ^ k → from_big_endian 0 (big_endian k v) ≡ v
unfolding big_endian from_big_endian
from_big_endian-big_endian zero v h = omega arith
from_big_endian-big_endian (suc k) v h = omega (
  arith,
  from_big_endian-snoc 0 (big_endian k (v / 256)) (v % 256),
  from_big_endian-big_endian k (v / 256) (omega (arith, pow-suc 256 k)),
)

-- An integer of 64 bits is packed.
abbrev pub InRange : ℤ → Type 0
InRange (pos n) = n < half
InRange (negsuc n) = n < half

pub length-pack_q : (i : ℤ) {b : Text} → pack_q i ≡ some b → length b ≡ 8
unfolding pack_q
length-pack_q (pos n) h = ground (arith, length-big_endian 8 n)
length-pack_q (negsuc n) h = ground (arith, length-big_endian 8 (2 ^ 64 - 1 - n))

pub pack_q_total : (i : ℤ) → InRange i → (b : Text) × (pack_q i ≡ some b)
unfolding pack_q
pack_q_total (pos n) h = (big_endian 8 n, ground arith)
pack_q_total (negsuc n) h = (big_endian 8 (2 ^ 64 - 1 - n), ground arith)

pub unpack_q-pack_q : (i : ℤ) {b : Text} → pack_q i ≡ some b → unpack_q b ≡ some i
unfolding pack_q unpack_q
unpack_q-pack_q (pos n) h = ground (arith, length-big_endian 8 n, from_big_endian-big_endian 8 n)
unpack_q-pack_q (negsuc n) h =
    ground
      (arith, length-big_endian 8 (2 ^ 64 - 1 - n), from_big_endian-big_endian 8 (2 ^ 64 - 1 - n))
