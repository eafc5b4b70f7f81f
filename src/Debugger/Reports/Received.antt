-- ===== src/Debugger/Reports/Received.antt =====
-- What the client reads of a message.
use python_vscode.Prelude.{
  ℕ, suc, ◌+◌, ◌<◌, ◌≡◌, refl, sym, ap, ◌∙◌, subst, Text, Option, none, some, List, [], ◌∷◌, ◌++◌,
  append_assoc, append-nil, if◌then◌else◌, same, codes, length, length-append, map, arith,
  Option-cases, inl, inr,
}
use python_vscode.Prelude.Int.{pos}
use python_vscode.Wire.{
  Conn, Outcome, done, raised, unicode_error, null, unicode, ascii, unicode_prefix, write_bytes,
  write_string, read_bytes, read_int, read_string, ◌>>=◌,
}
use python_vscode.Wire.Bytes.{pack_q, length-pack_q}
use python_vscode.Wire.Utf8.{encode}
use python_vscode.Wire.Frames.{read_bytes_exact}
use python_vscode.Wire.RoundTrip.{
  Delivers, Delivers-append, written, written-done, write_int-pack_q, write_sized-pack_q,
  read_int-pack_q, read_frame,
}
use python_vscode.Debugger.Reports.{Field, raw, int, string, send}

-- The kind of field that the client reads next
pub data Shape : Type 0 where
  raw_of : ℕ → Shape
  an_int a_string : Shape

abbrev pub shape : Field → Shape
shape (raw b) = raw_of (length b)
shape (int i) = an_int
shape (string s) = a_string

abbrev read_prefixed : ℕ → Text → Conn → Outcome Field
read_prefixed fuel prefix c =
    if same prefix (codes "N")
    then done (string null) c
    else if same prefix (codes "U")
    then (read_string fuel c >>= λ s c'. done (string (unicode s)) c')
    else raised unicode_error

unfoldable pub receive_one : ℕ → Shape → Conn → Outcome Field
receive_one fuel (raw_of n) c = read_bytes fuel n c >>= λ b c'. done (raw b) c'
receive_one fuel an_int c = read_int fuel c >>= λ i c'. done (int i) c'
receive_one fuel a_string c = read_bytes fuel 1 c >>= λ prefix c'. read_prefixed fuel prefix c'

unfoldable pub receive : ℕ → List Shape → Conn → Outcome (List Field)
unfolding receive_one
receive fuel [] c = done [] c
receive fuel (s ∷ shapes) c =
    receive_one fuel s c >>= λ f c'. receive fuel shapes c' >>= λ fields c''. done (f ∷ fields) c''

-- The bytes of a field, if it has them: a text that UTF-8 encodes and that is short enough, an integer
-- of 64 bits
abbrev pub sized_bytes : Text → Option Text → Option Text
sized_bytes e none = none
sized_bytes e (some p) = some (unicode_prefix ++ (p ++ e))

abbrev pub text_bytes : Option Text → Option Text
text_bytes none = none
text_bytes (some e) = sized_bytes e (pack_q (pos (length e)))

abbrev pub field_bytes : Field → Option Text
field_bytes (raw b) = some b
field_bytes (int i) = pack_q i
field_bytes (string null) = some (codes "N")
field_bytes (string (unicode s)) = text_bytes (encode s)
field_bytes (string (ascii s)) = none

abbrev pub joined : Option Text → Option Text → Option Text
joined none b = none
joined (some a) none = none
joined (some a) (some b) = some (a ++ b)

abbrev pub all_bytes : List Field → Option Text
all_bytes [] = some []
all_bytes (f ∷ fields) = joined (field_bytes f) (all_bytes fields)

-- What a text with bytes is made of
text_bytes-cases :
    (s b : Text)
    → text_bytes (encode s) ≡ some b
    → (e : Text) × ((p : Text) × ((encode s ≡ some e)
          × ((pack_q (pos (length e)) ≡ some p) × (unicode_prefix ++ (p ++ e) ≡ b))))
text_bytes-cases s b h = elim (Option-cases (encode s)) [
  | inl n ↦ absurd (cc (rw n at h))
  | inr (e, he) ↦ elim (Option-cases (pack_q (pos (length e)))) [
    | inl n ↦ absurd (cc (rw (he, n) at h))
    | inr (p, hp) ↦ (e, (p, (he, (hp, cc (rw (he, hp) at h)))))
  ]
]

joined-cases :
    (a c : Option Text) (b : Text)
    → joined a c ≡ some b
    → (d : Text) × ((k : Text) × ((a ≡ some d) × ((c ≡ some k) × (d ++ k ≡ b))))
joined-cases none c b h = absurd (cc h)
joined-cases (some d) none b h = absurd (cc h)
joined-cases (some d) (some k) b h = (d, (k, (refl, (refl, cc h))))

send_one :
    (f : Field) (fields : List Field) (b : Text) (out : Conn)
    → field_bytes f ≡ some b
    → send (f ∷ fields) out ≡ send fields (record out { outgoing = out.outgoing ++ b })
unfolding send write_bytes write_string
send_one (raw a) fields b out h =
    ap (λ t. send fields (record out { outgoing = out.outgoing ++ t })) (cc h)
send_one (int i) fields b out h = rw (write_int-pack_q i b out h)
send_one (string null) fields b out h =
    ap (λ t. send fields (record out { outgoing = out.outgoing ++ t })) (cc h)
send_one (string (unicode s)) fields b out h =
    let (e, (p, (he, (hp, hb)))) = text_bytes-cases s b h in
    let begun : Conn = record out { outgoing = out.outgoing ++ unicode_prefix } in
    let q : (out.outgoing ++ unicode_prefix) ++ (p ++ e) ≡ out.outgoing ++ b =
      append_assoc out.outgoing unicode_prefix (p ++ e) ∙ ap (λ t. out.outgoing ++ t) hb in
    rw he
      (rw (write_sized-pack_q e p begun hp) (ap (λ t. send fields (record out { outgoing = t })) q))
send_one (string (ascii s)) fields b out h = cc

-- The fields one after the other
send-all_bytes :
    (fields : List Field) (b : Text) (out : Conn)
    → all_bytes fields ≡ some b
    → send fields out ≡ done tt (record out { outgoing = out.outgoing ++ b })
unfolding send
send-all_bytes [] b out h =
    ap (λ t. done tt (record out { outgoing = t }))
      (sym (append-nil out.outgoing) ∙ ap (λ t. out.outgoing ++ t) (cc h))
send-all_bytes (f ∷ fields) b out h =
    let (d, (k, (hd, (hk, q)))) = joined-cases (field_bytes f) (all_bytes fields) b h in
    send_one f fields d out hd
    ∙ (send-all_bytes fields k (record out { outgoing = out.outgoing ++ d }) hk
        ∙ ap (λ t. done tt (record out { outgoing = t }))
            (append_assoc out.outgoing d k ∙ ap (λ t. out.outgoing ++ t) q))

-- What one read leaves: the field, and a stream that goes on
abbrev pub IsReceived : Field → Conn → Text → Outcome Field → Type 0
IsReceived f c rest o =
    (chunks : List Text) × ((o ≡ done f (record c { incoming = chunks }))
      × Delivers (record c { incoming = chunks }) [] rest)

receive_one-IsReceived :
    (f : Field) (b : Text) (fuel : ℕ) (c : Conn) (rest : Text)
    → field_bytes f ≡ some b
    → 8 + length b < fuel
    → Delivers c b rest
    → IsReceived f c rest (receive_one fuel (shape f) c)
unfolding receive_one
receive_one-IsReceived (raw a) b fuel c rest h k d =
    let q : b ≡ a = sym (cc h) in
    let (chunks, r, s, t) =
      read_bytes_exact fuel (length a) c a rest d.chunks (rw q at (d.stream)) refl
        (omega (arith, ap length q)) in
    (chunks, (rw r, record { chunks = t; stream = s }))
receive_one-IsReceived (int i) b fuel c rest h k d =
    let (chunks, r, t) = read_int-pack_q i b fuel c rest h (omega arith) d in (chunks, (rw r, t))
receive_one-IsReceived (string null) b fuel c rest h k d =
    let q : b ≡ codes "N" = sym (cc h) in
    let (chunks, r, s, t) =
      read_bytes_exact fuel 1 c (codes "N") rest d.chunks (rw q at (d.stream)) refl (omega arith) in
    (chunks, (rw r, record { chunks = t; stream = s }))
receive_one-IsReceived (string (unicode s)) b fuel c rest h k d =
    let (e, (p, (he, (hp, hb)))) = text_bytes-cases s b h in
    let l : length b ≡ suc (length p + length e) =
      ap length (sym hb) ∙ ap suc (length-append p e) in
    let n : 8 + length e < fuel = omega (arith, l, length-pack_q (pos (length e)) hp) in
    let (between, r, s', t) =
      read_bytes_exact fuel 1 c unicode_prefix ((p ++ e) ++ rest) d.chunks (rw (← hb) at (d.stream))
        refl (omega arith) in
    let (chunks, r', t') =
      read_frame s e p fuel (record c { incoming = between }) rest he hp n
        (record { chunks = t; stream = s' }) in
    (chunks, (rw r (rw r'), t'))
receive_one-IsReceived (string (ascii s)) b fuel c rest h k d = absurd (cc h)

-- What the reads of a message leave
abbrev pub AreReceived : List Field → Conn → Text → Outcome (List Field) → Type 0
AreReceived fields c rest o =
    (chunks : List Text) × ((o ≡ done fields (record c { incoming = chunks }))
      × Delivers (record c { incoming = chunks }) [] rest)

receive-AreReceived :
    (fields : List Field) (b : Text) (fuel : ℕ) (c : Conn) (rest : Text)
    → all_bytes fields ≡ some b
    → 8 + length b < fuel
    → Delivers c b rest
    → AreReceived fields c rest (receive fuel (map shape fields) c)
unfolding receive
receive-AreReceived [] b fuel c rest h k d =
    let q : b ≡ [] = sym (cc h) in
    (c.incoming, (refl, record { chunks = d.chunks; stream = rw q at (d.stream) }))
receive-AreReceived (f ∷ fields) b fuel c rest h k d =
    let (x, (y, (hx, (hy, q)))) = joined-cases (field_bytes f) (all_bytes fields) b h in
    let l : length b ≡ length x + length y = ap length (sym q) ∙ length-append x y in
    let (between, (r, t)) =
      receive_one-IsReceived f x fuel c (y ++ rest) hx (omega (arith, l))
        (Delivers-append x y (subst (λ t. Delivers c t rest) (sym q) d)) in
    let (chunks, (r', t')) =
      receive-AreReceived fields y fuel (record c { incoming = between }) rest hy (omega (arith, l))
        (record { chunks = t.chunks; stream = t.stream }) in
    (chunks, (rw r (rw r'), t'))

-- A message whose fields all have bytes, which texts that UTF-8 encodes in fewer than 2 ^ 63 bytes and integers of
-- 64 bits have, is written whole, and from what is written a client that reads a field of each kind in
-- turn reads the fields of the message, however the stream is cut into chunks, and leaves what
-- follows the message. The fuel has to exceed the bytes of the message and eight more.
pub receive-send :
    (fields : List Field) (b : Text) (out c : Conn) (fuel : ℕ) (rest : Text)
    → all_bytes fields ≡ some b
    → 8 + length b < fuel
    → Delivers c (written out (send fields out)) rest
    → (send fields out ≡ done tt (record out { outgoing = out.outgoing ++ b }))
      × AreReceived fields c rest (receive fuel (map shape fields) c)
receive-send fields b out c fuel rest h k d =
    let w = send-all_bytes fields b out h in
    let s : written out (send fields out) ≡ b = ap (written out) w ∙ written-done b out in
    (w, receive-AreReceived fields b fuel c rest h k (subst (λ t. Delivers c t rest) s d))
