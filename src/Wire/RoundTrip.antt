-- ===== src/Wire/RoundTrip.antt =====
-- What one side writes is what the other side reads.
use python_vscode.Prelude.{
  ℕ, ◌+◌, ◌<◌, Text, ◌≡◌, refl, ◌∙◌, ap, sym, subst, drop, drop-length_append, some, List, [], ◌∷◌,
  ◌++◌, arith, length, append-nil, append_assoc, ◌^◌,
}
use python_vscode.Prelude.Int.{ℤ, pos}
use python_vscode.Wire.{
  Conn, Outcome, done, raised, running, write_bytes, read_int, write_int, write_sized, write_string,
  read_string, unicode, unicode_prefix,
}
use python_vscode.Wire.Bytes.{InRange, pack_q, length-pack_q, pack_q_total, unpack_q-pack_q}
use python_vscode.Wire.Utf8.{encode}
use python_vscode.Wire.Utf8.RoundTrip.{decode-encode}
use python_vscode.Wire.Frames.{bytes, AreChunks, read_loop_exact, read_bytes_exact}

-- A connection whose stream is `b` and then `rest`, in non-empty chunks.
pub record Delivers (c : Conn) (b rest : Text) : Type 0 where
  pub chunks : AreChunks c.incoming
  pub stream : bytes c.incoming ≡ b ++ rest

pub write_int-pack_q :
    (i : ℤ) (b : Text) (out : Conn)
    → pack_q i ≡ some b
    → write_int i out ≡ done tt (write_bytes b out)
unfolding write_int
write_int-pack_q i b out e = rw e

pub read_int-pack_q :
    (i : ℤ) (b : Text) (fuel : ℕ) (c : Conn) (rest : Text)
    → pack_q i ≡ some b
    → 8 < fuel
    → Delivers c b rest
    → (chunks : List Text) × (read_int fuel c ≡ done i (record c { incoming = chunks }))
      × Delivers (record c { incoming = chunks }) [] rest
unfolding read_int
read_int-pack_q i b fuel c rest e f d =
    let (chunks, r, s, t) =
      read_bytes_exact fuel 8 c b rest d.chunks d.stream (length-pack_q i e) f in
    (chunks, rw (r, unpack_q-pack_q i e), record { chunks = t; stream = s })

-- What a call has written to a connection.
abbrev pub written : Conn → Outcome Unit → Text
written out (done a c) = drop (length out.outgoing) c.outgoing
written out (raised e) = []
written out running = []

pub written-done :
    (b : Text) (out : Conn)
    → written out (done tt (record out { outgoing = out.outgoing ++ b })) ≡ b
written-done b out = drop-length_append out.outgoing b

-- An integer of 64 bits is written as eight bytes, from which the other side reads that integer,
-- however they are cut into chunks, and leaves in the stream what follows them. The fuel has to
-- exceed the eight bytes.
pub read_int-write_int :
    (i : ℤ) (out c : Conn) (fuel : ℕ) (rest : Text)
    → InRange i
    → 8 < fuel
    → Delivers c (written out (write_int i out)) rest
    → (write_int i out
        ≡ done tt (record out { outgoing = out.outgoing ++ written out (write_int i out) }))
      × (length (written out (write_int i out)) ≡ 8)
      × ((chunks : List Text) × (read_int fuel c ≡ done i (record c { incoming = chunks }))
          × Delivers (record c { incoming = chunks }) [] rest)
unfolding write_bytes
read_int-write_int i out c fuel rest h f d =
    let (b, e) = pack_q_total i h in
    let w = write_int-pack_q i b out e in
    let s : written out (write_int i out) ≡ b = ap (written out) w ∙ written-done b out in
    (
      w ∙ ap (λ t. done tt (record out { outgoing = out.outgoing ++ t })) (sym s),
      ap length s ∙ length-pack_q i e,
      read_int-pack_q i b fuel c rest e f (subst (λ t. Delivers c t rest) s d),
    )

pub Delivers-append :
    {c : Conn} (b d : Text) {rest : Text} → Delivers c (b ++ d) rest → Delivers c b (d ++ rest)
Delivers-append b d {rest} h = record {
  chunks = h.chunks;
  stream = h.stream ∙ append_assoc b d rest;
}

pub write_sized-pack_q :
    (e p : Text) (out : Conn)
    → pack_q (pos (length e)) ≡ some p
    → write_sized e out ≡ done tt (record out { outgoing = out.outgoing ++ (p ++ e) })
unfolding write_sized write_bytes
write_sized-pack_q [] p out h = rw (write_int-pack_q _ p out h) (rw append-nil)
write_sized-pack_q (x ∷ e) p out h =
    rw (write_int-pack_q _ p out h) (ground (arith, append_assoc out.outgoing p (x ∷ e)))

pub read_frame :
    (s e p : Text) (fuel : ℕ) (c : Conn) (rest : Text)
    → encode s ≡ some e
    → pack_q (pos (length e)) ≡ some p
    → 8 + length e < fuel
    → Delivers c (p ++ e) rest
    → (chunks : List Text) × (read_string fuel c ≡ done s (record c { incoming = chunks }))
      × Delivers (record c { incoming = chunks }) [] rest
unfolding read_string
read_frame s e p fuel c rest h q f d =
    let (between, r, d') =
      read_int-pack_q (pos (length e)) p fuel c (e ++ rest) q (omega arith)
        (Delivers-append p e d) in
    let (chunks, r', t, u) =
      read_loop_exact fuel (length e) [] (record c { incoming = between }) e rest d'.chunks
        d'.stream refl (omega arith) (omega arith) in
    (chunks, rw (r, r', decode-encode s e h), record { chunks = u; stream = t })

-- The connection when the prefix byte of a text is written.
abbrev pub prefixed : Conn → Conn
prefixed out = record out { outgoing = out.outgoing ++ unicode_prefix }

-- A text whose UTF-8 bytes are fewer than 2 ^ 63 is written as a prefix byte and a frame, and from
-- the frame without the prefix the other side reads that text, and leaves in the stream what
-- follows. The fuel has to exceed the frame's eight bytes of length and the bytes of the text.
pub read_string-write_string :
    (s e : Text) (out c : Conn) (fuel : ℕ) (rest : Text)
    → encode s ≡ some e
    → length e < 2 ^ 63
    → 8 + length e < fuel
    → Delivers c (written (prefixed out) (write_string (unicode s) out)) rest
    → (write_string (unicode s) out
        ≡ done tt (record out {
          outgoing =
              (out.outgoing ++ unicode_prefix)
              ++ written (prefixed out) (write_string (unicode s) out);
        }))
      × ((chunks : List Text) × (read_string fuel c ≡ done s (record c { incoming = chunks }))
          × Delivers (record c { incoming = chunks }) [] rest)
unfolding write_string write_bytes
read_string-write_string s e out c fuel rest h l f d =
    let begun : Conn = prefixed out in
    let (p, q) = pack_q_total (pos (length e)) l in
    let w : write_string (unicode s) out
        ≡ done tt (record begun { outgoing = begun.outgoing ++ (p ++ e) }) =
      rw h (write_sized-pack_q e p begun q) in
    let t : written begun (write_string (unicode s) out) ≡ p ++ e =
      ap (written begun) w ∙ written-done (p ++ e) begun in
    (
      w ∙ ap (λ u. done tt (record begun { outgoing = begun.outgoing ++ u })) (sym t),
      read_frame s e p fuel c rest h q f (subst (λ u. Delivers c u rest) t d),
    )
