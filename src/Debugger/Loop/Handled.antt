-- ===== src/Debugger/Loop/Handled.antt =====
-- A stream of commands, and what the loop handles of it.
use python_vscode.Prelude.{
  ℕ, zero, suc, ◌+◌, ◌<◌, ◌≤◌, Text, Bool, false, Option, none, some, List, [], ◌∷◌, ◌++◌, codes,
  same, text_eq, length, length-append, map, All, arith, ◌≡◌, refl, ap, subst,
}
use python_vscode.Prelude.Int.{ℤ, pos}
use python_vscode.Prelude.Dict.{lookup}
use python_vscode.Prelude.Options.{◌>>=◌}
use python_vscode.Wire.{Conn, Outcome, done}
use python_vscode.Wire.RoundTrip.{Delivers}
use python_vscode.Wire.Reads.{
  Reads, Reads-done, Reads-bind, Reads-map, Reads-eq, a_number, args_bytes, Reads-number,
  Reads-text, Reads-name, >>=-eq-some,
}
use python_vscode.Debugger.Loop.{
  Statement, Command, plain, set_exception_info, set_exception_handler_info, command_table,
  read_args, handle_next, read_modes, read_statements, read_exception_info, read_handler_info,
  read_by_name, read_command, Handling, handle_command, loop,
}
use python_vscode.Debugger.Loop.RoundTrip.{
  kind, mode_args, statement_args, command_args, command_name, received_statement, AreTexts,
  read_args-Reads, read_modes-Reads, read_statements-Reads,
}

-- The bytes of some commands, one after the other
abbrev pub stream_bytes : List Command → Option Text
stream_bytes [] = some []
stream_bytes (command ∷ commands) = args_bytes (command_args command) >>= λ b.
    stream_bytes commands >>= λ k. some ((command_name command ++ b) ++ k)

module _ (is_space : ℕ → Bool) where
  -- The command that is received for the one that is sent: the expressions of a statement become a set.
  abbrev pub received : Command → Command
  received (set_exception_handler_info filename statements) =
      set_exception_handler_info filename (map (received_statement is_space) statements)
  received command = command

  -- A command that the client may send: a name of the table with what its handler reads
  abbrev pub IsCommand : Command → Type 0
  IsCommand (plain name args) =
      (lookup name command_table ≡ some (map kind args))
      × (same name (codes "sexi") ≡ false)
      × (same name (codes "sehi") ≡ false)
      × (length name ≡ 4)
  IsCommand (set_exception_info default_mode modes) = Unit
  IsCommand (set_exception_handler_info filename statements) =
      All (λ s. AreTexts is_space s.expressions) statements

  length-command_name : (command : Command) → IsCommand command → length (command_name command) ≡ 4
  length-command_name (plain name args) h = h.3
  length-command_name (set_exception_info d m) h = refl
  length-command_name (set_exception_handler_info f s) h = refl

  module _ (fuel : ℕ) where
    read_exception_info-Reads :
        (default_mode : ℤ) (modes : List (ℤ × Text)) (b : Text)
        → args_bytes (command_args (set_exception_info default_mode modes)) ≡ some b
        → length b + 8 < fuel
        → Reads (read_exception_info is_space fuel) (set_exception_info default_mode modes) b
    unfolding read_exception_info
    read_exception_info-Reads default_mode modes b h f =
        Reads-number fuel (set_exception_info default_mode modes) default_mode
          (a_number (pos (length modes)) ∷ mode_args modes) _ b h f
          λ k hk fk.
            Reads-number fuel (set_exception_info default_mode modes) (pos (length modes))
              (mode_args modes) _ k hk fk
              λ j hj fj.
                Reads-map (read_modes fuel (length modes)) (λ l. set_exception_info default_mode l)
                  modes j (read_modes-Reads fuel modes j hj fj)

    read_handler_info-Reads :
        (filename : Text) (statements : List Statement) (b : Text)
        → All (λ s. AreTexts is_space s.expressions) statements
        → args_bytes (command_args (set_exception_handler_info filename statements)) ≡ some b
        → length b + 8 < fuel
        → Reads
            (read_handler_info is_space fuel)
            (received (set_exception_handler_info filename statements))
            b
    unfolding read_handler_info
    read_handler_info-Reads filename statements b e h f =
        let y : List Statement = map (received_statement is_space) statements in
        Reads-text fuel (set_exception_handler_info filename y) filename
          (a_number (pos (length statements)) ∷ statement_args statements) _ b h f
          λ k hk fk.
            Reads-number fuel (set_exception_handler_info filename y) (pos (length statements))
              (statement_args statements) _ k hk fk
              λ j hj fj.
                Reads-map (read_statements is_space fuel (length statements))
                  (λ l. set_exception_handler_info filename l) y j
                  (read_statements-Reads is_space fuel statements j e hj fj)

    read_by_name-Reads :
        (command : Command) (b : Text)
        → IsCommand command
        → args_bytes (command_args command) ≡ some b
        → length b + 8 < fuel
        → Reads (read_by_name is_space fuel (command_name command)) (some (received command)) b
    read_by_name-Reads (plain name args) b e h f =
        Reads-eq (read_by_name is_space fuel name) _ (some (plain name args)) b
          (λ c. rw (e.1, e.2, e.0) refl)
          (Reads-map (read_args fuel (map kind args)) (λ l. some (plain name l)) args b
            (read_args-Reads fuel args b h f))
    read_by_name-Reads (set_exception_info d modes) b e h f =
        Reads-map (read_exception_info is_space fuel) some (set_exception_info d modes) b
          (read_exception_info-Reads d modes b h f)
    read_by_name-Reads (set_exception_handler_info filename statements) b e h f =
        Reads-map (read_handler_info is_space fuel) some
          (received (set_exception_handler_info filename statements)) b
          (read_handler_info-Reads filename statements b e h f)

    read_command-Reads :
        (command : Command) (b : Text)
        → IsCommand command
        → args_bytes (command_args command) ≡ some b
        → length b + 8 < fuel
        → Reads (read_command is_space fuel) (some (received command)) (command_name command ++ b)
    unfolding read_command
    read_command-Reads command b e h f =
        Reads-name fuel (some (received command)) 4 (command_name command) b
          (read_by_name is_space fuel) (length-command_name command e) (omega arith)
          (read_by_name-Reads command b e h f)

    module _ {A : Type 0} (handler : Handling A) where
      -- The commands are handled one after the other, and no handler raises.
      abbrev pub handled_all : List Command → A → Option A
      handled_all [] s = some s
      handled_all (command ∷ commands) s = handle_command handler command s >>= handled_all commands

      -- A command whose handler raises, and one whose handler does not
      handle_next-raises :
          (more : A → Conn → Outcome (List Command)) (command : Command) (s : A)
          → handle_command handler command s ≡ none
          → Reads (handle_next is_space handler more s (some command)) (command ∷ []) []
      handle_next-raises more command s e =
          Reads-eq (handle_next is_space handler more s (some command)) (done (command ∷ []))
            (command ∷ []) [] (λ c. rw (handle_next, e) refl) (Reads-done (command ∷ []))

      handle_next-Reads :
          (more : A → Conn → Outcome (List Command)) (command : Command) (s s' : A)
          (commands : List Command) (b : Text)
          → handle_command handler command s ≡ some s'
          → Reads (more s') commands b
          → Reads (handle_next is_space handler more s (some command)) (command ∷ commands) b
      handle_next-Reads more command s s' commands b e h =
          Reads-eq (handle_next is_space handler more s (some command)) _ (command ∷ commands) b
            (λ c. rw (handle_next, e) refl) (Reads-map (more s') (λ l. command ∷ l) commands b h)

      -- What is read of a stream of commands
      loop-Reads :
          (commands : List Command) (last : Command) (n : ℕ) (b : Text) (s s' : A)
          → All IsCommand commands
          → IsCommand last
          → handled_all (map received commands) s ≡ some s'
          → handle_command handler (received last) s' ≡ none
          → stream_bytes (commands ++ last ∷ []) ≡ some b
          → length b + 8 < fuel
          → length commands < n
          → Reads (loop is_space handler fuel n s) (map received commands ++ received last ∷ []) b
      unfolding loop
      loop-Reads commands last zero b s s' h i d r e f l = absurd (omega arith)
      loop-Reads [] last (suc n) b s s' h i d r e f l =
          let (a, ea, e') =
            >>=-eq-some (args_bytes (command_args last))
              (λ (t : Text). some ((command_name last ++ t) ++ [])) e in
          let first : Text = command_name last ++ a in
          let q : first ++ [] ≡ b = cc e' in
          let size : length a ≤ length b =
            omega
              (arith, ap length q, length-append first [], length-append (command_name last) a) in
          let raises : handle_command handler (received last) s ≡ none = cc in
          subst (λ t. Reads (loop is_space handler fuel (suc n) s) (received last ∷ []) t) q
            (Reads-bind (read_command is_space fuel)
              (handle_next is_space handler (loop is_space handler fuel n) s) (some (received last))
              (received last ∷ []) first [] (read_command-Reads last a i ea (omega arith))
              (handle_next-raises (loop is_space handler fuel n) (received last) s raises))
      loop-Reads (command ∷ commands) last (suc n) b s s' h i d r e f l =
          let (a, ea, e') =
            >>=-eq-some (args_bytes (command_args command))
              (λ (t : Text). stream_bytes (commands ++ last ∷ []) >>= λ k.
                some ((command_name command ++ t) ++ k))
              e in
          let (k, ek, q) =
            >>=-eq-some (stream_bytes (commands ++ last ∷ []))
              (λ (t : Text). some ((command_name command ++ a) ++ t)) e' in
          let first : Text = command_name command ++ a in
          let q' : first ++ k ≡ b = cc q in
          let size : length a + length k ≤ length b =
            omega (
              arith,
              ap length q',
              length-append first k,
              length-append (command_name command) a,
            ) in
          let (s1, d1, d2) =
            >>=-eq-some (handle_command handler (received command) s)
              (handled_all (map received commands)) d in
          let y : List Command = map received commands ++ received last ∷ [] in
          subst (λ t. Reads (loop is_space handler fuel (suc n) s) (received command ∷ y) t) q'
            (Reads-bind (read_command is_space fuel)
              (handle_next is_space handler (loop is_space handler fuel n) s)
              (some (received command)) (received command ∷ y) first k
              (read_command-Reads command a h.0 ea (omega arith))
              (handle_next-Reads (loop is_space handler fuel n) (received command) s s1 y k d1
                (loop-Reads commands last n k s1 s' h.1 i d2 r ek (omega arith) (omega arith))))

      -- After any commands that the client may send and whose handlers do not raise, and one more whose
      -- handler raises, as that of `detc` always does, one after the other in the stream, however they are
      -- cut into chunks, the loop has handed these commands to their handlers in this order and has
      -- ended, and leaves what follows. The fuel for a read has to exceed the bytes of the commands by
      -- eight, and that for the commands their number but one.
      pub loop-received :
          (commands : List Command) (last : Command) (n : ℕ) (b : Text) (s s' : A) (c : Conn)
          (rest : Text)
          → All IsCommand commands
          → IsCommand last
          → handled_all (map received commands) s ≡ some s'
          → handle_command handler (received last) s' ≡ none
          → stream_bytes (commands ++ last ∷ []) ≡ some b
          → length b + 8 < fuel
          → length commands < n
          → Delivers c b rest
          → (chunks : List Text) × (loop is_space handler fuel n s c
              ≡ done (map received commands ++ received last ∷ []) (record c { incoming = chunks }))
            × Delivers (record c { incoming = chunks }) [] rest
      loop-received commands last n b s s' c rest h i d r e f l v =
          loop-Reads commands last n b s s' h i d r e f l c rest v
