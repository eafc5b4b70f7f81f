-- ===== src/Repl/Commands/Received/RoundTrip.antt =====
-- A command that the window sends is the command that the back end receives.
use python_vscode.Prelude.{
  ℕ, zero, suc, ◌+◌, ◌-◌, ◌≤◌, ◌<◌, Text, false, some, List, [], ◌∷◌, ◌++◌, codes, length,
  length-append, length-take, take, drop, take-append-drop, ltb, ◌≡◌, refl, sym, ap, ◌∙◌, arith,
  text_eq, subst, append-nil, append_assoc, Bool-cases, inl, inr,
}
use python_vscode.Prelude.Dict.{lookup}
use python_vscode.Wire.{Conn, Outcome, done, raised, running, recv, read_loop}
use python_vscode.Wire.Frames.{bytes, AreChunks, recv-bytes, read_loop_exact}
use python_vscode.Wire.RoundTrip.{Delivers}
use python_vscode.Wire.Reads.{
  Reads, Reads-done, Reads-bind, Arg, a_number, a_text, args_bytes, Reads-end, Reads-number,
  Reads-text, Reads-name,
}
use python_vscode.Repl.Commands.{
  Command, run, mems, sigs, setm, inpl, abrt, exit, mods, sett, excf, excx, dbga,
}
use python_vscode.Repl.Commands.Received.{
  Reader, text_command, plain_command, read_sett, read_excf, read_excx, read_dbga, commands,
  read_by, Timed, got, timed_out, starved, timed_loop, all_chunks, read_command,
}

-- The four bytes of a command, and its arguments
abbrev pub name : Command → Text
name (run _) = codes "run "
name abrt = codes "abrt"
name exit = codes "exit"
name (mems _) = codes "mems"
name (sigs _) = codes "sigs"
name mods = codes "mods"
name (setm _) = codes "setm"
name (sett _ _ _) = codes "sett"
name (inpl _) = codes "inpl"
name (excf _ _) = codes "excf"
name (excx _ _ _) = codes "excx"
name (dbga _ _ _) = codes "dbga"

abbrev pub arguments : Command → List Arg
arguments (run s) = a_text s ∷ []
arguments abrt = []
arguments exit = []
arguments (mems s) = a_text s ∷ []
arguments (sigs s) = a_text s ∷ []
arguments mods = []
arguments (setm s) = a_text s ∷ []
arguments (sett t f k) = a_number t ∷ a_number f ∷ a_number k ∷ []
arguments (inpl s) = a_text s ∷ []
arguments (excf f s) = a_text f ∷ a_text s ∷ []
arguments (excx t f s) = a_text t ∷ a_text f ∷ a_text s ∷ []
arguments (dbga p i o) = a_number p ∷ a_text i ∷ a_text o ∷ []

-- The reader of each command, and that it is found by its name
abbrev reader : Command → Reader
reader (run _) = text_command run
reader abrt = plain_command abrt
reader exit = plain_command exit
reader (mems _) = text_command mems
reader (sigs _) = text_command sigs
reader mods = plain_command mods
reader (setm _) = text_command setm
reader (sett _ _ _) = read_sett
reader (inpl _) = text_command inpl
reader (excf _ _) = read_excf
reader (excx _ _ _) = read_excx
reader (dbga _ _ _) = read_dbga

lookup-name : (command : Command) → lookup (name command) commands ≡ some (reader command)
unfolding lookup
lookup-name (run _) = refl
lookup-name abrt = refl
lookup-name exit = refl
lookup-name (mems _) = refl
lookup-name (sigs _) = refl
lookup-name mods = refl
lookup-name (setm _) = refl
lookup-name (sett _ _ _) = refl
lookup-name (inpl _) = refl
lookup-name (excf _ _) = refl
lookup-name (excx _ _ _) = refl
lookup-name (dbga _ _ _) = refl

length-name : (command : Command) → length (name command) ≡ 4
length-name command = ground arith

module _ (fuel : ℕ) where
  text_command-Reads :
      (command : Text → Command) (s b : Text)
      → args_bytes (a_text s ∷ []) ≡ some b
      → length b + 8 < fuel
      → Reads (text_command command fuel) (command s) b
  text_command-Reads command s b h f =
      Reads-text fuel (command s) s [] (λ t c. done (command t) c) b h f
        λ k e _. Reads-end fuel (command s) k e

  reader-Reads :
      (command : Command) (b : Text)
      → args_bytes (arguments command) ≡ some b
      → length b + 8 < fuel
      → Reads (reader command fuel) command b
  unfolding read_sett read_excf read_excx read_dbga
  reader-Reads (run s) b h f = text_command-Reads run s b h f
  reader-Reads abrt b h f = Reads-end fuel abrt b h
  reader-Reads exit b h f = Reads-end fuel exit b h
  reader-Reads (mems s) b h f = text_command-Reads mems s b h f
  reader-Reads (sigs s) b h f = text_command-Reads sigs s b h f
  reader-Reads mods b h f = Reads-end fuel mods b h
  reader-Reads (setm s) b h f = text_command-Reads setm s b h f
  reader-Reads (sett t g k) b h f =
      Reads-number fuel (sett t g k) t (a_number g ∷ a_number k ∷ []) _ b h f λ b1 h1 f1.
        Reads-number fuel (sett t g k) g (a_number k ∷ []) _ b1 h1 f1 λ b2 h2 f2.
          Reads-number fuel (sett t g k) k [] _ b2 h2 f2
            λ b3 h3 _. Reads-end fuel (sett t g k) b3 h3
  reader-Reads (inpl s) b h f = text_command-Reads inpl s b h f
  reader-Reads (excf g s) b h f = Reads-text fuel (excf g s) g (a_text s ∷ []) _ b h f λ b1 h1 f1.
      Reads-text fuel (excf g s) s [] _ b1 h1 f1 λ b2 h2 _. Reads-end fuel (excf g s) b2 h2
  reader-Reads (excx t g s) b h f =
      Reads-text fuel (excx t g s) t (a_text g ∷ a_text s ∷ []) _ b h f λ b1 h1 f1.
        Reads-text fuel (excx t g s) g (a_text s ∷ []) _ b1 h1 f1 λ b2 h2 f2.
          Reads-text fuel (excx t g s) s [] _ b2 h2 f2 λ b3 h3 _. Reads-end fuel (excx t g s) b3 h3
  reader-Reads (dbga p i o) b h f =
      Reads-number fuel (dbga p i o) p (a_text i ∷ a_text o ∷ []) _ b h f λ b1 h1 f1.
        Reads-text fuel (dbga p i o) i (a_text o ∷ []) _ b1 h1 f1 λ b2 h2 f2.
          Reads-text fuel (dbga p i o) o [] _ b2 h2 f2 λ b3 h3 _. Reads-end fuel (dbga p i o) b3 h3

  read_by-Reads :
      (command : Command) (b : Text)
      → args_bytes (arguments command) ≡ some b
      → length b + 8 < fuel
      → Reads (read_by (some (reader command)) fuel) (some command) b
  read_by-Reads command b h f =
      subst (λ t. Reads (read_by (some (reader command)) fuel) (some command) t) (append-nil b)
        (Reads-bind (reader command fuel) (λ c' s. done (some c') s) command (some command) b []
          (reader-Reads command b h f) (Reads-done (some command)))

-- The read of a name that has arrived is the read without a timeout.
abbrev timed : Outcome Text → Timed
timed (done b c) = got b c.incoming
timed (raised e) = starved
timed running = starved

timed_loop-read_loop :
    (fuel count : ℕ) (b : Text) (arrived : List Text) (c : Conn)
    → count ≤ length b + length (bytes arrived)
    → timed_loop fuel count b arrived
      ≡ timed (read_loop fuel count b (record c { incoming = arrived }))
unfolding timed_loop read_loop recv
timed_loop-read_loop zero count b arrived c h = refl
timed_loop-read_loop (suc fuel) count b [] c h =
    let e : ltb (length b) count ≡ false = ground (arith, h) in rw e refl
timed_loop-read_loop (suc fuel) count b (chunk ∷ rest) c h =
    elim (Bool-cases (ltb (length b) count)) [
      | inl e ↦
          let (received, left) = recv (count - length b) (chunk ∷ rest) in
          let all : received ++ bytes left ≡ bytes (chunk ∷ rest) =
            recv-bytes (count - length b) (chunk ∷ rest) in
          rw e (
            timed_loop-read_loop fuel count (b ++ received) left c (
              omega (
                arith,
                h,
                ap length all,
                length-append received (bytes left),
                length-append b received,
              )))
      | inr n ↦ rw n refl
    ]

bytes-append : (a b : List Text) → bytes (a ++ b) ≡ bytes a ++ bytes b
bytes-append [] b = refl
bytes-append (chunk ∷ a) b =
    ap (λ t. chunk ++ t) (bytes-append a b) ∙ sym (append_assoc chunk (bytes a) (bytes b))

AreChunks-append : (a b : List Text) → AreChunks (a ++ b) → AreChunks a × AreChunks b
AreChunks-append [] b h = (tt, h)
AreChunks-append (chunk ∷ a) b h = let (x, y) = AreChunks-append a b h.1 in ((h.0, x), y)

append-AreChunks : (a b : List Text) → AreChunks a → AreChunks b → AreChunks (a ++ b)
append-AreChunks [] b h k = k
append-AreChunks (chunk ∷ a) b h k = (h.0, append-AreChunks a b h.1 k)

-- Two texts of one length at the start of one text are the same, and so is what follows them.
starts_same : (a b x y : Text) → length a ≡ length b → a ++ x ≡ b ++ y → (a ≡ b) × (x ≡ y)
starts_same [] [] x y l e = (refl, e)
starts_same [] (d ∷ b) x y l e = absurd (omega (arith, l))
starts_same (c ∷ a) [] x y l e = absurd (omega (arith, l))
starts_same (c ∷ a) (d ∷ b) x y l e =
    let (p, q) = starts_same a b x y (omega (arith, l)) (cc) in let h : c ≡ d = cc in (cc, q)

-- No timeout strikes between the first byte of the name and the last: where anything has arrived before one, it
-- is the name at least.
abbrev pub IsWhole : List (List Text) → Type 0
IsWhole [] = Unit
IsWhole ([] ∷ periods) = IsWhole periods
IsWhole ((chunk ∷ arrived) ∷ periods) = 4 ≤ length (bytes (chunk ∷ arrived))

-- The name is read of what has arrived.
timed_loop-name :
    (fuel : ℕ) (name' more : Text) (arrived later : List Text) (c : Conn)
    → AreChunks arrived
    → 4 ≤ length (bytes arrived)
    → length name' ≡ 4
    → bytes arrived ++ bytes later ≡ name' ++ more
    → 4 < fuel
    → (left : List Text) × (timed_loop fuel 4 [] arrived ≡ got name' left)
      × (bytes left ++ bytes later ≡ more)
      × AreChunks left
timed_loop-name fuel name' more arrived later c h w l e f =
    let here : Text = take 4 (bytes arrived) in
    let after : Text = drop 4 (bytes arrived) in
    let size : length here ≡ 4 = omega (arith, length-take 4 (bytes arrived), w) in
    let (p, q) = starts_same here name' (after ++ bytes later) more (size ∙ sym l) (
      sym (append_assoc here after (bytes later))
      ∙ ap (λ t. t ++ bytes later) (take-append-drop 4 (bytes arrived))
      ∙ e) in
    let (left, r, s, t) =
      read_loop_exact fuel 4 [] (record c { incoming = arrived }) here after h
        (sym (take-append-drop 4 (bytes arrived))) size (omega arith) (omega (arith, f)) in
    (
      left,
      timed_loop-read_loop fuel 4 [] arrived c (omega (arith, w))
          ∙ ap timed r
          ∙ ap (λ i. got i left) p,
      ap (λ i. i ++ bytes later) s ∙ q,
      t,
    )

timed_out_lem : (fuel : ℕ) → 0 < fuel → timed_loop fuel 4 [] [] ≡ timed_out
unfolding timed_loop
timed_out_lem zero h = absurd (omega (arith, h))
timed_out_lem (suc fuel) h = refl

-- From the name of a command and the bytes of its arguments, its numbers of 64 bits and its texts such that
-- UTF-8 encodes them, the loop receives that command, however they are cut into chunks, and leaves in the
-- stream what follows them: if no timeout strikes between the first and the last byte of the name, however many
-- strike before. The fuel has to exceed the bytes of the arguments by eight.
pub read_command-name :
    (command : Command) (b : Text) (fuel : ℕ) (periods : List (List Text)) (c : Conn) (rest : Text)
    → args_bytes (arguments command) ≡ some b
    → length b + 8 < fuel
    → IsWhole periods
    → Delivers (record c { incoming = all_chunks periods c.incoming }) (name command ++ b) rest
    → (chunks : List Text) × (read_command fuel periods c
        ≡ done (some command) (record c { incoming = chunks }))
      × Delivers (record c { incoming = chunks }) [] rest
unfolding read_command
read_command-name command b fuel [] c rest h f w d =
    Reads-name fuel (some command) 4 (name command) b
      (λ inp c'. read_by (lookup inp commands) fuel c') (length-name command) (omega arith)
      (rw (lookup-name command) (read_by-Reads fuel command b h f)) c rest d
read_command-name command b fuel ([] ∷ periods) c rest h f w d =
    let more = read_command-name command b fuel periods c rest h f w d in
    rw (read_command, timed_out_lem fuel (omega (arith, f))) more
read_command-name command b fuel ((chunk ∷ arrived) ∷ periods) c rest h f w d =
    let later : List Text = all_chunks periods c.incoming in
    let (x, y) = AreChunks-append (chunk ∷ arrived) later d.chunks in
    let (left, e, s, t) =
      timed_loop-name fuel (name command) (b ++ rest) (chunk ∷ arrived) later c x w
        (length-name command)
        (sym (bytes-append (chunk ∷ arrived) later) ∙ d.stream ∙ append_assoc (name command) b rest)
        (omega (arith, f)) in
    rw (read_command, e, lookup-name command)
      (read_by-Reads fuel command b h f (record c { incoming = left ++ later }) rest
        (record { chunks = append-AreChunks left later t y; stream = bytes-append left later ∙ s }))
