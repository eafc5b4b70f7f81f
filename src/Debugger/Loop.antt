-- ===== src/Debugger/Loop.antt =====
-- The commands of the client as `DebuggerLoop.loop` reads them: the table of commands, and what each handler
-- reads from the connection before it acts. What the handlers do then is a parameter here, and is in the modules
-- beside this one.
pub mod RoundTrip
pub mod Handled
use python_vscode.Prelude.{
  ℕ, zero, suc, Text, Bool, true, false, Option, none, some, List, [], ◌∷◌, ◌++◌, if◌then◌else◌,
  codes, same, text_eq,
}
use python_vscode.Prelude.Int.{ℤ, pos, negsuc}
use python_vscode.Prelude.Dict.{Dict, lookup}
use python_vscode.Prelude.Texts.{is_in, strip}
use python_vscode.Wire.{Conn, Outcome, done, running, read_bytes, read_int, read_string, ◌>>=◌}
use python_vscode.Wire.Reads.{Arg, a_number, a_text}

-- A call of `read_int` or of `read_string`
pub data Kind : Type 0 where
  number text : Kind

-- A statement with the handlers of exceptions in it: its lines, and the names that they handle
pub record Statement : Type 0 where
  pub line_start : ℤ
  pub line_end : ℤ
  pub expressions : List Text

-- A command by its four bytes with what its handler reads; the two that set exceptions read lists.
pub data Command : Type 0 where
  plain : Text → List Arg → Command
  set_exception_info : ℤ → List (ℤ × Text) → Command
  set_exception_handler_info : Text → List Statement → Command

-- What the other handlers read: `command_table`
abbrev pub command_table : Dict Text (List Kind)
command_table =
    (codes "stpi", number ∷ [])
    ∷ (codes "stpo", number ∷ [])
    ∷ (codes "stpv", number ∷ [])
    ∷ (codes "brkp", number ∷ number ∷ text ∷ number ∷ text ∷ number ∷ number ∷ [])
    ∷ (codes "brkc", number ∷ number ∷ text ∷ [])
    ∷ (codes "bkpc", number ∷ number ∷ number ∷ [])
    ∷ (codes "bkgh", number ∷ number ∷ [])
    ∷ (codes "bksh", number ∷ number ∷ [])
    ∷ (codes "brkr", number ∷ number ∷ [])
    ∷ (codes "brka", [])
    ∷ (codes "resa", [])
    ∷ (codes "rest", number ∷ [])
    ∷ (codes "thrf", number ∷ [])
    ∷ (codes "ares", number ∷ [])
    ∷ (codes "exec", text ∷ number ∷ number ∷ number ∷ number ∷ number ∷ [])
    ∷ (codes "chld", text ∷ number ∷ number ∷ number ∷ number ∷ [])
    ∷ (codes "setl", number ∷ number ∷ number ∷ [])
    ∷ (codes "detc", [])
    ∷ (codes "clst", number ∷ [])
    ∷ (codes "bkdr", number ∷ number ∷ text ∷ [])
    ∷ (codes "bkda", number ∷ number ∷ text ∷ [])
    ∷ (codes "crep", number ∷ [])
    ∷ (codes "drep", [])
    ∷ (codes "lack", [])
    ∷ []

abbrev cons_arg : Arg → List Arg → Conn → Outcome (List Arg)
cons_arg a args c = done (a ∷ args) c

unfoldable pub read_args : ℕ → List Kind → Conn → Outcome (List Arg)
read_args fuel [] c = done [] c
read_args fuel (number ∷ kinds) c =
    read_int fuel c >>= λ i c'. read_args fuel kinds c' >>= λ args c''. done (a_number i ∷ args) c''
read_args fuel (text ∷ kinds) c = read_string fuel c >>= λ s c'.
    read_args fuel kinds c' >>= λ args c''. done (a_text s ∷ args) c''

-- The rounds of `for i in xrange(n)`
abbrev pub rounds : ℤ → ℕ
rounds (pos n) = n
rounds (negsuc n) = 0

-- The loop of `command_set_exception_info`
unfoldable pub read_modes : ℕ → ℕ → Conn → Outcome (List (ℤ × Text))
read_modes fuel zero c = done [] c
read_modes fuel (suc n) c = read_int fuel c >>= λ mode c'. read_string fuel c' >>= λ name c''.
    read_modes fuel n c'' >>= λ modes c'''. done ((mode, name) ∷ modes) c'''

-- `expressions.add(text)`, in the order in which they come
abbrev pub add : Text → List Text → List Text
add t ts = if is_in t ts then ts else ts ++ (t ∷ [])

-- `while text != '-'`
unfoldable pub read_expressions : ℕ → ℕ → Text → List Text → Conn → Outcome (List Text)
read_expressions fuel zero t expressions c = running
read_expressions fuel (suc n) t expressions c = elim (same t (codes "-")) [
  | true ↦ done expressions c
  | false ↦ read_string fuel c >>= λ t' c'. read_expressions fuel n t' (add t expressions) c'
]

abbrev pub or_star : List Text → List Text
or_star [] = codes "*" ∷ []
or_star (t ∷ ts) = t ∷ ts

abbrev pub read_plain : ℕ → Text → Option (List Kind) → Conn → Outcome (Option Command)
read_plain fuel inp none c = done none c
read_plain fuel inp (some kinds) c =
    read_args fuel kinds c >>= λ args c'. done (some (plain inp args)) c'

-- `command_detach` raises the exception that ends the loop.
abbrev pub is_detach : Command → Bool
is_detach (plain name args) = same name (codes "detc")
is_detach _ = false

-- What a handler does with what it has read: a state, or none where it raises
abbrev pub Handling : Type 0 → Type 0
Handling A = Command → A → Option A

abbrev pub handle_command : {A : Type 0} → Handling A → Command → A → Option A
handle_command handler command s = if is_detach command then none else handler command s

module _ (is_space : ℕ → Bool) where
  -- One round of the loop of `command_set_exception_handler_info`; the first text is stripped.
  unfoldable pub read_statement : ℕ → Conn → Outcome Statement
  unfolding read_expressions
  read_statement fuel c = read_int fuel c >>= λ line_start c1. read_int fuel c1 >>= λ line_end c2.
      read_string fuel c2 >>= λ t c3.
      read_expressions fuel fuel (strip is_space t) [] c3 >>= λ expressions c4.
      done
        (record { line_start = line_start; line_end = line_end; expressions = or_star expressions })
        c4

  unfoldable pub read_statements : ℕ → ℕ → Conn → Outcome (List Statement)
  unfolding read_statement
  read_statements fuel zero c = done [] c
  read_statements fuel (suc n) c = read_statement fuel c >>= λ s c'.
      read_statements fuel n c' >>= λ statements c''. done (s ∷ statements) c''

  unfoldable pub read_exception_info : ℕ → Conn → Outcome Command
  unfolding read_modes
  read_exception_info fuel c = read_int fuel c >>= λ default_mode c1.
      read_int fuel c1 >>= λ count c2. read_modes fuel (rounds count) c2 >>= λ modes c3.
      done (set_exception_info default_mode modes) c3

  unfoldable pub read_handler_info : ℕ → Conn → Outcome Command
  unfolding read_statements
  read_handler_info fuel c = read_string fuel c >>= λ filename c1. read_int fuel c1 >>= λ count c2.
      read_statements fuel (rounds count) c2 >>= λ statements c3.
      done (set_exception_handler_info filename statements) c3

  abbrev pub read_by_name : ℕ → Text → Conn → Outcome (Option Command)
  read_by_name fuel inp c =
      if same inp (codes "sexi")
      then (read_exception_info fuel c >>= λ command c'. done (some command) c')
      else if same inp (codes "sehi")
      then (read_handler_info fuel c >>= λ command c'. done (some command) c')
      else read_plain fuel inp (lookup inp command_table) c

  -- The next command; none is one that is not known.
  unfoldable pub read_command : ℕ → Conn → Outcome (Option Command)
  unfolding read_args read_exception_info read_handler_info lookup
  read_command fuel c = read_bytes fuel 4 c >>= λ inp c'. read_by_name fuel inp c'

  module _ {A : Type 0} (handler : Handling A) where
    -- A command is handled, and then, if its handler does not raise, those after it.
    abbrev pub handle_next :
        (A → Conn → Outcome (List Command)) → A → Option Command → Conn → Outcome (List Command)
    handle_next more s none c = done [] c
    handle_next more s (some command) c = elim (handle_command handler command s) [
      | none ↦ done (command ∷ []) c
      | some s' ↦ more s' c >>= λ commands c'. done (command ∷ commands) c'
    ]

    -- The commands that the loop hands to their handlers, up to what ends it: one that is not known, which
    -- has no handler, or one whose handler raises, which is the last. The fuel is for the commands and
    -- for each read.
    unfoldable pub loop : ℕ → ℕ → A → Conn → Outcome (List Command)
    unfolding read_command
    loop fuel zero s c = running
    loop fuel (suc n) s c = read_command fuel c >>= handle_next (loop fuel n) s
