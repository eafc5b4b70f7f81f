-- ===== src/Wire/Reads.antt =====
-- Reading one thing after the other: integers and texts without a prefix, as a handler of commands reads its
-- arguments.
use python_vscode.Prelude.{
  ℕ, ◌+◌, ◌<◌, ◌≡◌, refl, sym, ap, ◌∙◌, subst, Text, Option, none, some, List, [], ◌∷◌, ◌++◌,
  append_assoc, append-nil, ◌≤◌, length, length-append, arith,
}
use python_vscode.Prelude.Options.{◌>>=◌}
use python_vscode.Prelude.Int.{ℤ, pos}
use python_vscode.Wire
use python_vscode.Wire.{Conn, Outcome, done, read_bytes, read_int, read_string}
use python_vscode.Wire.Bytes.{pack_q, length-pack_q}
use python_vscode.Wire.Utf8.{encode}
use python_vscode.Wire.Frames.{read_bytes_exact}
use python_vscode.Wire.RoundTrip.{Delivers, Delivers-append, read_int-pack_q, read_frame}

-- From a connection that delivers the bytes and then anything, the value is read, and what follows is left.
abbrev pub Reads : {A : Type 0} → (Conn → Outcome A) → A → Text → Type 0
Reads m a b =
    (c : Conn) (rest : Text)
    → Delivers c b rest
    → (chunks : List Text) × (m c ≡ done a (record c { incoming = chunks }))
      × Delivers (record c { incoming = chunks }) [] rest

Delivers-nil : {c : Conn} (b : Text) {rest : Text} → Delivers c [] (b ++ rest) → Delivers c b rest
Delivers-nil b h = record { chunks = h.chunks; stream = h.stream }

pub Reads-done : {A : Type 0} (a : A) → Reads (λ c. done a c) a []
Reads-done a c rest d = (c.incoming, refl, d)

-- One read and then another
pub Reads-bind :
    {A B : Type 0} (m : Conn → Outcome A) (f : A → Conn → Outcome B) (a : A) (x : B) (b k : Text)
    → Reads m a b
    → Reads (f a) x k
    → Reads (λ c. Wire.◌>>=◌ (m c) f) x (b ++ k)
Reads-bind m f a x b k h g c rest d =
    let (between, r, d') = h c (k ++ rest) (Delivers-append b k d) in
    let (chunks, r', d'') = g (record c { incoming = between }) rest (Delivers-nil k d') in
    (chunks, rw (r, r') refl, d'')

-- A reader that computes to another one
pub Reads-eq :
    {A : Type 0} (m n : Conn → Outcome A) (a : A) (b : Text)
    → ((c : Conn) → m c ≡ n c)
    → Reads n a b
    → Reads m a b
Reads-eq m n a b e h c rest d = let (chunks, r, v) = h c rest d in (chunks, e c ∙ r, v)

-- What is made of what is read
pub Reads-map :
    {A B : Type 0} (m : Conn → Outcome A) (g : A → B) (a : A) (b : Text)
    → Reads m a b
    → Reads (λ c. Wire.◌>>=◌ (m c) (λ y c'. done (g y) c')) (g a) b
Reads-map m g a b h =
    subst (λ t. Reads (λ c. Wire.◌>>=◌ (m c) (λ y c'. done (g y) c')) (g a) t) (append-nil b)
      (Reads-bind m (λ y c'. done (g y) c') a (g a) b [] h (Reads-done (g a)))

-- An argument of a command, and the bytes that the client sends of it: an integer of 64 bits, or a text that
-- UTF-8 encodes, after its length
pub data Arg : Type 0 where
  a_number : ℤ → Arg
  a_text : Text → Arg

abbrev pub arg_bytes : Arg → Option Text
arg_bytes (a_number i) = pack_q i
arg_bytes (a_text s) = encode s >>= λ e. pack_q (pos (length e)) >>= λ p. some (p ++ e)

abbrev pub args_bytes : List Arg → Option Text
args_bytes [] = some []
args_bytes (a ∷ args) = arg_bytes a >>= λ b. args_bytes args >>= λ k. some (b ++ k)

pub >>=-eq-some {ℓ κ} :
    {A : Type ℓ} {B : Type κ} (m : Option A) (f : A → Option B) {b : B}
    → (m >>= f) ≡ some b
    → (a : A) × (m ≡ some a) × (f a ≡ some b)
>>=-eq-some none f h = absurd (cc h)
>>=-eq-some (some a) f h = (a, refl, h)

-- The bytes of the first argument, and of those after it
args_bytes-parts :
    (a : Arg) (args : List Arg) (b : Text)
    → args_bytes (a ∷ args) ≡ some b
    → (d : Text) × ((k : Text) × (arg_bytes a ≡ some d) × (args_bytes args ≡ some k) × (d ++ k ≡ b))
args_bytes-parts a args b h =
    let (d, hd, h') =
      >>=-eq-some (arg_bytes a) (λ (t : Text). args_bytes args >>= λ k. some (t ++ k)) h in
    let (k, hk, q) = >>=-eq-some (args_bytes args) (λ (t : Text). some (d ++ t)) h' in
    (d, (k, hd, hk, cc q))

arg_bytes-ge : (a : Arg) (d : Text) → arg_bytes a ≡ some d → 8 ≤ length d
arg_bytes-ge (a_number i) d h = omega (arith, length-pack_q i h)
arg_bytes-ge (a_text s) d h =
    let (e, he, h') =
      >>=-eq-some (encode s) (λ (t : Text). pack_q (pos (length t)) >>= λ p. some (p ++ t)) h in
    let (p, hp, q) = >>=-eq-some (pack_q (pos (length e))) (λ (t : Text). some (t ++ e)) h' in
    let q' : p ++ e ≡ d = cc q in
    omega (arith, ap length q', length-append p e, length-pack_q (pos (length e)) hp)

-- No argument is empty.
pub length-le-args_bytes :
    (args : List Arg) (b : Text) → args_bytes args ≡ some b → length args ≤ length b
length-le-args_bytes [] b h = omega arith
length-le-args_bytes (a ∷ args) b h =
    let (d, (k, hd, hk, q)) = args_bytes-parts a args b h in
    omega
      (arith, ap length q, length-append d k, arg_bytes-ge a d hd, length-le-args_bytes args k hk)

args_bytes-append :
    (first args : List Arg) (b : Text)
    → args_bytes (first ++ args) ≡ some b
    → (d k : Text) × (args_bytes first ≡ some d) × (args_bytes args ≡ some k) × (d ++ k ≡ b)
args_bytes-append [] args b h = ([], b, refl, h, refl)
args_bytes-append (a ∷ first) args b h =
    let (e, (r, he, hr, q)) = args_bytes-parts a (first ++ args) b h in
    let (d, k, hd, hk, q') = args_bytes-append first args r hr in
    (e ++ d, k, rw (he, hd) refl, hk, append_assoc e d k ∙ (ap (λ t. e ++ t) q' ∙ q))

read_int-Reads :
    (fuel : ℕ) (i : ℤ) (d : Text)
    → arg_bytes (a_number i) ≡ some d
    → 8 < fuel
    → Reads (read_int fuel) i d
read_int-Reads fuel i d h f c rest v = read_int-pack_q i d fuel c rest h f v

read_string-Reads :
    (fuel : ℕ) (s d : Text)
    → arg_bytes (a_text s) ≡ some d
    → length d < fuel
    → Reads (read_string fuel) s d
read_string-Reads fuel s d h f c rest v =
    let (e, he, h') =
      >>=-eq-some (encode s) (λ (t : Text). pack_q (pos (length t)) >>= λ p. some (p ++ t)) h in
    let (p, hp, q) = >>=-eq-some (pack_q (pos (length e))) (λ (t : Text). some (t ++ e)) h' in
    let q' : p ++ e ≡ d = cc q in
    read_frame s e p fuel c rest he hp
      (omega (arith, ap length q', length-append p e, length-pack_q (pos (length e)) hp))
      (subst (λ t. Delivers c t rest) (sym q') v)

module _ {A : Type 0} (fuel : ℕ) (x : A) where
  pub Reads-end : (b : Text) → args_bytes [] ≡ some b → Reads (λ c. done x c) x b
  Reads-end b h = subst (λ t. Reads (λ c. done x c) x t) (cc h) (Reads-done x)

  pub Reads-number :
      (i : ℤ) (args : List Arg) (f : ℤ → Conn → Outcome A) (b : Text)
      → args_bytes (a_number i ∷ args) ≡ some b
      → length b + 8 < fuel
      → ((k : Text) → args_bytes args ≡ some k → length k + 8 < fuel → Reads (f i) x k)
      → Reads (λ c. Wire.◌>>=◌ (read_int fuel c) f) x b
  Reads-number i args f b h l g =
      let (d, (k, hd, hk, q)) = args_bytes-parts (a_number i) args b h in
      subst (λ t. Reads (λ c. Wire.◌>>=◌ (read_int fuel c) f) x t) q
        (Reads-bind (read_int fuel) f i x d k (read_int-Reads fuel i d hd (omega arith))
          (g k hk (omega (arith, ap length q, length-append d k))))

  pub Reads-text :
      (s : Text) (args : List Arg) (f : Text → Conn → Outcome A) (b : Text)
      → args_bytes (a_text s ∷ args) ≡ some b
      → length b + 8 < fuel
      → ((k : Text) → args_bytes args ≡ some k → length k + 8 < fuel → Reads (f s) x k)
      → Reads (λ c. Wire.◌>>=◌ (read_string fuel c) f) x b
  Reads-text s args f b h l g =
      let (d, (k, hd, hk, q)) = args_bytes-parts (a_text s) args b h in
      let e : length d + length k ≡ length b = sym (length-append d k) ∙ ap length q in
      subst (λ t. Reads (λ c. Wire.◌>>=◌ (read_string fuel c) f) x t) q
        (Reads-bind (read_string fuel) f s x d k (read_string-Reads fuel s d hd (omega (arith, e)))
          (g k hk (omega (arith, e))))

  -- A command's name, and then its arguments
  pub Reads-name :
      (n : ℕ) (name b : Text) (f : Text → Conn → Outcome A)
      → length name ≡ n
      → n < fuel
      → Reads (f name) x b
      → Reads (λ c. Wire.◌>>=◌ (read_bytes fuel n c) f) x (name ++ b)
  Reads-name n name b f e l g =
      Reads-bind (read_bytes fuel n) f name x name b
        (λ c rest d.
          let (chunks, r, s, t) = read_bytes_exact fuel n c name rest d.chunks d.stream e l in
          (chunks, r, record { chunks = t; stream = s }))
        g

  -- What is read of the first arguments, and then of the others
  pub Reads-append :
      {B : Type 0} (m : Conn → Outcome B) (y : B) (first args : List Arg) (f : B → Conn → Outcome A)
      (b : Text)
      → args_bytes (first ++ args) ≡ some b
      → length b + 8 < fuel
      → ((d : Text) → args_bytes first ≡ some d → length d + 8 < fuel → Reads m y d)
      → ((k : Text) → args_bytes args ≡ some k → length k + 8 < fuel → Reads (f y) x k)
      → Reads (λ c. Wire.◌>>=◌ (m c) f) x b
  Reads-append m y first args f b h l g r =
      let (d, k, hd, hk, q) = args_bytes-append first args b h in
      let e : length d + length k ≡ length b = sym (length-append d k) ∙ ap length q in
      subst (λ t. Reads (λ c. Wire.◌>>=◌ (m c) f) x t) q
        (Reads-bind m f y x d k (g d hd (omega (arith, e))) (r k hk (omega (arith, e))))
