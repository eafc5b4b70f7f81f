-- ===== src/Wire/Utf8/RoundTrip.antt =====
-- What is encoded is decoded to the same text.
use python_vscode.Prelude.{
  ℕ, zero, suc, ◌+◌, ◌≤◌, Text, ◌≡◌, refl, ap, some, [], ◌∷◌, ◌++◌, arith, length, length-append,
  Option-cases, Bool-cases, inl, inr, ltb, ◌/◌, ◌%◌,
}
use python_vscode.Wire.Utf8.{
  encode_one, join, encode, two, three, four, decode_one, cons_decoded, decode_loop, decode,
}

-- The first byte and the rest of an encoded character.
pub encode_one-decode_one :
    (c : ℕ) (bs r : Text)
    → encode_one c ≡ some bs
    → (a : ℕ) × (t : Text) × (bs ≡ a ∷ t) × (decode_one a (t ++ r) ≡ some (c, r))
unfolding encode_one decode_one two three four
encode_one-decode_one c bs r h = elim (Bool-cases (ltb c 0x80)) [
  | inl p ↦ (c, [], ground arith, ground arith)
  | inr p ↦ elim (Bool-cases (ltb c 0x800)) [
    | inl q ↦ (0xc0 + c / 64, (0x80 + c % 64) ∷ [], ground arith, ground arith)
    | inr q ↦ elim (Bool-cases (ltb c 0x10000)) [
      | inl s ↦
          (0xe0 + c / 4096, (0x80 + c / 64 % 64) ∷ (0x80 + c % 64) ∷ [], ground arith, ground arith)
      | inr s ↦ (
        0xf0 + c / 262144,
        (0x80 + c / 4096 % 64) ∷ (0x80 + c / 64 % 64) ∷ (0x80 + c % 64) ∷ [],
        ground arith,
        ground arith,
      )
    ]
  ]
]

decode_loop-nil : (fuel : ℕ) → decode_loop fuel [] ≡ some []
unfolding decode_loop
decode_loop-nil zero = refl
decode_loop-nil (suc fuel) = refl

decode_loop-step :
    (c : ℕ) (s x y : Text) (fuel : ℕ)
    → encode_one c ≡ some x
    → ((k : ℕ) → length y ≤ k → decode_loop k y ≡ some s)
    → length (x ++ y) ≤ fuel
    → decode_loop fuel (x ++ y) ≡ some (c ∷ s)
unfolding decode_loop
decode_loop-step c s x y fuel h ih l =
    let (a, t, e, d) = encode_one-decode_one c x y h in
    rw e (unfold_step fuel a t d (omega (arith, length-append x y, length-append t y, ap length e)))
  where
    unfold_step :
        (k a : ℕ) (t : Text)
        → decode_one a (t ++ y) ≡ some (c, y)
        → suc (length y) ≤ k
        → decode_loop k (a ∷ (t ++ y)) ≡ some (c ∷ s)
    unfold_step zero a t d g = elim g [ ]
    unfold_step (suc k) a t d g = rw (d, decode_loop) (ap (cons_decoded c) (ih k (omega arith)))

-- With fuel for its bytes, the loop decodes what was encoded.
decode_loop-encode :
    (s bs : Text) (fuel : ℕ) → encode s ≡ some bs → length bs ≤ fuel → decode_loop fuel bs ≡ some s
unfolding encode join
decode_loop-encode [] [] fuel h l = decode_loop-nil fuel
decode_loop-encode [] (b ∷ bs) fuel h l = cc
decode_loop-encode (c ∷ s) bs fuel h l = elim (Option-cases (encode_one c)) [
  | inl p ↦ ground arith
  | inr (x, p) ↦ elim (Option-cases (encode s)) [
    | inl q ↦ ground arith
    | inr (y, q) ↦
        let e : x ++ y ≡ bs = ground arith in
        rw (← e) (decode_loop-step c s x y fuel p (λ k. decode_loop-encode s y k q) (rw e l))
  ]
]

-- Decoding the bytes that a text encodes to returns the text; only texts with a surrogate or a
-- number past 0x10ffff have no bytes.
pub decode-encode : (s bs : Text) → encode s ≡ some bs → decode bs ≡ some s
unfolding decode
decode-encode s bs h = decode_loop-encode s bs (length bs) h (omega arith)
