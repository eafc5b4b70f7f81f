-- ===== src/Repl/Commands/Received.antt =====
-- Reading a command from the connection, and when a command ends the loop.
pub mod RoundTrip
use python_vscode.Prelude.{
  ℕ, zero, suc, ◌-◌, ltb, length, ◌++◌, Text, Bool, true, false, not, ◌&&◌, ◌||◌, Option, none,
  some, List, [], ◌∷◌, if◌then◌else◌, codes, ◌≡◌, refl, text_eq, Bool-cases, inl, inr, arith,
}
use python_vscode.Prelude.Dict.{Dict, lookup}
use python_vscode.Prelude.Texts.{is_in}
use python_vscode.Wire.{
  Conn, Outcome, done, running, recv, read_bytes, read_int, read_string, ◌>>=◌,
}
use python_vscode.Repl.Commands.{
  Command, run, mems, sigs, setm, inpl, abrt, exit, mods, sett, excf, excx, dbga, Backend, Act,
  Handled, goes_on, fails, Inspector, handle, execute, input, handle_or_exit, released,
  exit_process,
}

-- What a handler reads from the connection before it acts
abbrev pub Reader : Type 0
Reader = ℕ → Conn → Outcome Command

abbrev pub text_command : (Text → Command) → Reader
text_command command fuel c = read_string fuel c >>= λ s c'. done (command s) c'

abbrev pub plain_command : Command → Reader
plain_command command fuel c = done command c

unfoldable pub read_sett : Reader
read_sett fuel c = read_int fuel c >>= λ t c'.
    read_int fuel c' >>= λ f c''. read_int fuel c'' >>= λ k c'''. done (sett t f k) c'''

unfoldable pub read_excf : Reader
read_excf fuel c = read_string fuel c >>= λ filename c'.
    read_string fuel c' >>= λ args c''. done (excf filename args) c''

unfoldable pub read_excx : Reader
read_excx fuel c = read_string fuel c >>= λ filetype c'. read_string fuel c' >>= λ filename c''.
    read_string fuel c'' >>= λ args c'''. done (excx filetype filename args) c'''

unfoldable pub read_dbga : Reader
read_dbga fuel c = read_int fuel c >>= λ port c'. read_string fuel c' >>= λ id c''.
    read_string fuel c'' >>= λ options c'''. done (dbga port id options) c'''

-- `_COMMANDS`
abbrev pub commands : Dict Text Reader
commands =
    (codes "run ", text_command run)
    ∷ (codes "abrt", plain_command abrt)
    ∷ (codes "exit", plain_command exit)
    ∷ (codes "mems", text_command mems)
    ∷ (codes "sigs", text_command sigs)
    ∷ (codes "mods", plain_command mods)
    ∷ (codes "setm", text_command setm)
    ∷ (codes "sett", read_sett)
    ∷ (codes "inpl", text_command inpl)
    ∷ (codes "excf", read_excf)
    ∷ (codes "excx", read_excx)
    ∷ (codes "dbga", read_dbga)
    ∷ []

abbrev read_by : Option Reader → ℕ → Conn → Outcome (Option Command)
read_by none fuel c = done none c
read_by (some reader) fuel c = reader fuel c >>= λ command c'. done (some command) c'

-- What a read with a timeout gives: the bytes and what has arrived after them, the exception of the timeout, or
-- nothing within the fuel
pub data Timed : Type 0 where
  got : Text → List Text → Timed
  timed_out starved : Timed

-- `read_bytes(self.conn, 4)` under `settimeout(10)`, of the chunks that arrive before ten seconds pass with
-- nothing; what has been read when the timeout strikes is lost.
unfoldable pub timed_loop : ℕ → ℕ → Text → List Text → Timed
unfolding recv
timed_loop zero count b arrived = starved
timed_loop (suc fuel) count b [] = if ltb (length b) count then timed_out else got b []
timed_loop (suc fuel) count b (chunk ∷ rest) =
    let (received, left) = recv (count - length b) (chunk ∷ rest) in
    let again = timed_loop fuel count (b ++ received) left in
    if ltb (length b) count then again else got b (chunk ∷ rest)

abbrev pub all_chunks : List (List Text) → List Text → List Text
all_chunks [] chunks = chunks
all_chunks (arrived ∷ periods) chunks = arrived ++ all_chunks periods chunks

-- The turns of the loop up to one that has read the name of a command, and that command; one that is not known
-- is none. `periods` is what arrives before each timeout that is still to come, and `incoming` what arrives
-- after the last; a timeout strikes only where the name is read, and that is `continue`, with no exceptional
-- event on the socket.
unfoldable pub read_command : ℕ → List (List Text) → Conn → Outcome (Option Command)
unfolding read_sett read_excf read_excx read_dbga lookup timed_loop
read_command fuel [] c = read_bytes fuel 4 c >>= λ inp c'. read_by (lookup inp commands) fuel c'
read_command fuel (arrived ∷ periods) c = elim (timed_loop fuel 4 [] arrived) [
  | timed_out ↦ read_command fuel periods c
  | got inp left ↦
      read_by (lookup inp commands) fuel
        (record c { incoming = left ++ all_chunks periods c.incoming })
  | starved ↦ running
]
