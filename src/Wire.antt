-- ===== src/Wire.antt =====
-- The byte protocol of the debugger's socket (pythonFiles/PythonTools/visualstudio_py_util.py).
-- `incoming` is what `conn.recv` will hand over, one chunk for each time that data arrives; an
-- empty list is the end of the stream, where `recv` returns the empty bytes object.
pub mod Bytes
pub mod Utf8
pub mod Frames
pub mod RoundTrip
pub mod Reads
mod Tests
use python_vscode.Prelude.{
  ℕ, zero, suc, ◌+◌, ◌-◌, ◌≤◌, Text, Bool, true, false, Option, none, some, List, [], ◌∷◌, ◌++◌,
  ltb, leb, if◌then◌else◌, length, take, drop, codes,
}
use python_vscode.Prelude.Int.{ℤ, pos, negsuc}
use Bytes.{pack_q, unpack_q}
use Utf8.{encode, decode}

pub record Conn : Type 0 where
  pub incoming : List Text
  pub outgoing : Text

pub data Error : Type 0 where
  struct_error unicode_error : Error

-- `running` is a loop that has not ended within its fuel.
pub data Outcome (A : Type 0) : Type 0 where
  done : A → Conn → Outcome A
  raised : Error → Outcome A
  running : Outcome A

infixl 5 ◌>>=◌
abbrev pub ◌>>=◌ : {A B : Type 0} → Outcome A → (A → Conn → Outcome B) → Outcome B
done a c >>= f = f a c
raised e >>= f = raised e
running >>= f = running

-- `ascii.Codec.encode(cmd_str)[0]`
all_ascii : Text → Bool
all_ascii [] = true
all_ascii (c ∷ s) = if ltb c 128 then all_ascii s else false

unfoldable pub to_bytes : Text → Option Text
unfolding all_ascii
to_bytes s = if all_ascii s then some s else none

-- `conn.recv(n)` for `0 < n`
unfoldable pub recv : ℕ → List Text → Text × List Text
recv n [] = ([], [])
recv n (chunk ∷ rest) = (take n chunk, if leb (length chunk) n then rest else drop n chunk ∷ rest)

-- `while len(b) < count: b += conn.recv(count - len(b))`; `recv` never returns None
unfoldable pub read_loop : ℕ → ℕ → Text → Conn → Outcome Text
unfolding recv
read_loop zero count b c = running
read_loop (suc fuel) count b c =
    let (received, rest) = recv (count - length b) c.incoming in
    let again = read_loop fuel count (b ++ received) (record c { incoming = rest }) in
    if ltb (length b) count then again else done b c

unfoldable pub read_bytes : ℕ → ℕ → Conn → Outcome Text
unfolding read_loop
read_bytes fuel count c = read_loop fuel count [] c

unfoldable pub write_bytes : Text → Conn → Conn
write_bytes b c = record c { outgoing = c.outgoing ++ b }

abbrev pub or_raise : {A : Type 0} → Option A → Error → Conn → Outcome A
or_raise none e c = raised e
or_raise (some a) e c = done a c

unfoldable pub read_int : ℕ → Conn → Outcome ℤ
read_int fuel c = read_bytes fuel 8 c >>= λ b c'. or_raise (unpack_q b) struct_error c'

unfoldable pub write_int : ℤ → Conn → Outcome Unit
write_int i c = or_raise (pack_q i) struct_error c >>= λ b c'. done tt (write_bytes b c')

-- A Python text, bytes object or None.
pub data PyString : Type 0 where
  null : PyString
  unicode ascii : Text → PyString

abbrev pub unicode_prefix : Text
unicode_prefix = codes "U"

abbrev pub ascii_prefix : Text
ascii_prefix = codes "A"

abbrev pub none_prefix : Text
none_prefix = codes "N"

-- `if b_len > 0: write_bytes(conn, b)`
unfoldable pub write_sized : Text → Conn → Outcome Unit
write_sized b c = write_int (pos (length b)) c >>= λ _ c'.
    done tt (if ltb 0 (length b) then write_bytes b c' else c')

unfoldable pub write_string : PyString → Conn → Outcome Unit
write_string null c = done tt (write_bytes none_prefix c)
write_string (unicode s) c =
    or_raise (encode s) unicode_error c >>= λ b c'. write_sized b (write_bytes unicode_prefix c')
write_string (ascii s) c = write_sized s (write_bytes ascii_prefix c)

-- The size of the body; a negative length makes the loop of `read_string` end at once.
abbrev body_length : ℤ → ℕ
body_length (pos n) = n
body_length (negsuc n) = 0

unfoldable pub read_string : ℕ → Conn → Outcome Text
read_string fuel c = read_int fuel c >>= λ n c'.
    read_loop fuel (body_length n) [] c' >>= λ res c''. or_raise (decode res) unicode_error c''
