-- ===== src/Wire/Frames.antt =====
-- Reads do not depend on how the stream is cut into chunks, and never return early.
use python_vscode.Prelude.{
  ℕ, zero, suc, ◌+◌, ◌-◌, ◌≤◌, ◌<◌, Text, ◌≡◌, refl, ap, List, [], ◌∷◌, ◌++◌, arith, ltb, leb,
  length, take, drop, length-append, length-take, length-drop, take-append-drop, inl, inr,
  take-eq_of_le, append-cancel_left, sym, ◌∙◌, append_assoc, All, Bool-cases,
}
use python_vscode.Wire.{Conn, done, running, recv, read_loop, read_bytes}

-- The bytes that are still to come.
abbrev pub bytes : List Text → Text
bytes [] = []
bytes (chunk ∷ rest) = chunk ++ bytes rest

-- `recv` returns nothing only at the end of the stream.
abbrev pub AreChunks : List Text → Type 0
AreChunks = All (λ chunk. 0 < length chunk)

-- A call takes from the front of the stream and loses nothing.
pub recv-bytes :
    (n : ℕ) (chunks : List Text) → (recv n chunks).0 ++ bytes (recv n chunks).1 ≡ bytes chunks
unfolding recv
recv-bytes n [] = refl
recv-bytes n (chunk ∷ rest) = elim (Bool-cases (leb (length chunk) n)) [
  | inl short ↦ rw short (ap (λ t. t ++ bytes rest) (take-eq_of_le n chunk (ground arith)))
  | inr long ↦ rw long (
      sym (append_assoc (take n chunk) (drop n chunk) (bytes rest))
      ∙ ap (λ t. t ++ bytes rest) (take-append-drop n chunk))
]

recv-AreChunks : (n : ℕ) (chunks : List Text) → AreChunks chunks → AreChunks (recv n chunks).1
unfolding recv
recv-AreChunks n [] h = tt
recv-AreChunks n (chunk ∷ rest) h = elim (Bool-cases (leb (length chunk) n)) [
  | inl short ↦ rw short h.1
  | inr long ↦ rw long (ground (arith, length-drop n chunk), h.1)
]

length-recv-le : (n : ℕ) (chunks : List Text) → length (recv n chunks).0 ≤ n
unfolding recv
length-recv-le n [] = omega arith
length-recv-le n (chunk ∷ rest) = omega (arith, length-take n chunk)

recv_progress :
    (n : ℕ) (chunks : List Text)
    → AreChunks chunks
    → 0 < n
    → 0 < length (bytes chunks)
    → 0 < length (recv n chunks).0
unfolding recv
recv_progress n [] h p q = q
recv_progress n (chunk ∷ rest) h p q = omega (arith, length-take n chunk)

-- The state of the loop: what was read and what is to come make up the stream.
pub read_loop_exact :
    (fuel count : ℕ) (b : Text) (c : Conn) (want rest : Text)
    → AreChunks c.incoming
    → b ++ bytes c.incoming ≡ want ++ rest
    → length want ≡ count
    → length b ≤ count
    → count < fuel + length b
    → (chunks : List Text) × (read_loop fuel count b c ≡ done want (record c { incoming = chunks }))
      × (bytes chunks ≡ rest)
      × AreChunks chunks
unfolding read_loop
read_loop_exact zero count b c want rest h e w l f = absurd (omega arith)
read_loop_exact (suc fuel) count b c want rest h e w l f =
    elim (Bool-cases (ltb (length b) count)) [
      | inl more ↦ rw more (
          read_loop_exact fuel count (b ++ (recv (count - length b) c.incoming).0)
            (record c { incoming = (recv (count - length b) c.incoming).1 }) want rest
            (recv-AreChunks (count - length b) c.incoming h)
            (append_assoc b _ _ ∙ ap (λ t. b ++ t) (recv-bytes (count - length b) c.incoming) ∙ e) w
            (ground (
              arith,
              length-append b (recv (count - length b) c.incoming).0,
              length-recv-le (count - length b) c.incoming,
            ))
            (ground (
              arith,
              length-append b (recv (count - length b) c.incoming).0,
              length-append b (bytes c.incoming),
              length-append want rest,
              ap length e,
              recv_progress (count - length b) c.incoming h,
            )))
      | inr full ↦
          let p = append-cancel_left b (bytes c.incoming) want rest e (ground arith) in
          (c.incoming, rw (full, p.0), p.1, h)
    ]

-- Before the end of the stream is reached within the count, the loop does not end.
read_loop_starved :
    (fuel count : ℕ) (b : Text) (c : Conn)
    → length b + length (bytes c.incoming) < count
    → read_loop fuel count b c ≡ running
unfolding read_loop
read_loop_starved zero count b c h = refl
read_loop_starved (suc fuel) count b c h =
    let (received, rest) = recv (count - length b) c.incoming in
    ground (
      arith,
      read_loop_starved fuel count (b ++ received) (record c { incoming = rest }),
      length-append b received,
      length-append received (bytes rest),
      ap length (recv-bytes (count - length b) c.incoming),
    )

-- If the stream holds at least `count` bytes, however they are cut into non-empty chunks,
-- `read_bytes` returns exactly the first `count` of them and leaves the rest in the stream.
pub read_bytes_exact :
    (fuel count : ℕ) (c : Conn) (want rest : Text)
    → AreChunks c.incoming
    → bytes c.incoming ≡ want ++ rest
    → length want ≡ count
    → count < fuel
    → (chunks : List Text) × (read_bytes fuel count c ≡ done want (record c { incoming = chunks }))
      × (bytes chunks ≡ rest)
      × AreChunks chunks
unfolding read_bytes
read_bytes_exact fuel count c want rest h e w f =
    read_loop_exact fuel count [] c want rest h e w (omega arith) (omega arith)

-- If the stream ends with fewer than `count` bytes, `read_bytes` never returns: the loop waits for
-- a None that `recv` does not give, and each further `recv` returns no bytes.
pub read_bytes_starved :
    (fuel count : ℕ) (c : Conn)
    → length (bytes c.incoming) < count
    → read_bytes fuel count c ≡ running
unfolding read_bytes
read_bytes_starved fuel count c h = read_loop_starved fuel count [] c (omega arith)
