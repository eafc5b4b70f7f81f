-- ===== src/Debugger/Loop/RoundTrip.antt =====
-- The commands that the client sends are the commands that the loop handles.
use python_vscode.Prelude.{
  ℕ, zero, suc, ◌+◌, ◌<◌, Text, Bool, false, some, List, [], ◌∷◌, ◌++◌, codes, same, text_eq,
  length, map, All, arith, ◌≡◌, refl,
}
use python_vscode.Prelude.Int.{ℤ, pos}
use python_vscode.Prelude.Texts.{strip}
use python_vscode.Wire
use python_vscode.Wire.{Conn, Outcome, done, running, read_bytes, read_int, read_string}
use python_vscode.Wire.Reads.{
  Reads, Reads-map, Reads-eq, Arg, a_number, a_text, args_bytes, Reads-end, Reads-number,
  Reads-text, Reads-append, length-le-args_bytes,
}
use python_vscode.Debugger.Loop.{
  Kind, number, text, Statement, Command, plain, set_exception_info, set_exception_handler_info,
  read_args, read_modes, add, read_expressions, or_star, read_statement, read_statements,
}

abbrev pub kind : Arg → Kind
kind (a_number i) = number
kind (a_text s) = text

abbrev pub mode_args : List (ℤ × Text) → List Arg
mode_args [] = []
mode_args ((mode, name) ∷ modes) = a_number mode ∷ a_text name ∷ mode_args modes

-- The texts of a statement, and the one that ends them
abbrev pub text_args : List Text → List Arg
text_args [] = a_text (codes "-") ∷ []
text_args (t ∷ ts) = a_text t ∷ text_args ts

abbrev pub statement_args : List Statement → List Arg
statement_args [] = []
statement_args (s ∷ statements) =
    (a_number s.line_start ∷ a_number s.line_end ∷ text_args s.expressions)
    ++ statement_args statements

-- What the client sends after the name of a command
abbrev pub command_args : Command → List Arg
command_args (plain name args) = args
command_args (set_exception_info default_mode modes) =
    a_number default_mode ∷ a_number (pos (length modes)) ∷ mode_args modes
command_args (set_exception_handler_info filename statements) =
    a_text filename ∷ a_number (pos (length statements)) ∷ statement_args statements

abbrev pub command_name : Command → Text
command_name (plain name args) = name
command_name (set_exception_info _ _) = codes "sexi"
command_name (set_exception_handler_info _ _) = codes "sehi"

-- A set with further texts
abbrev pub add_all : List Text → List Text → List Text
add_all [] expressions = expressions
add_all (t ∷ ts) expressions = add_all ts (add t expressions)

abbrev pub IsNotEnd : Text → Type 0
IsNotEnd t = same t (codes "-") ≡ false

module _ (fuel : ℕ) where
  pub read_args-Reads :
      (args : List Arg) (b : Text)
      → args_bytes args ≡ some b
      → length b + 8 < fuel
      → Reads (read_args fuel (map kind args)) args b
  unfolding read_args
  read_args-Reads [] b h f = Reads-end fuel [] b h
  read_args-Reads (a_number i ∷ args) b h f =
      Reads-number fuel (a_number i ∷ args) i args _ b h f λ k hk fk.
        Reads-map (read_args fuel (map kind args)) (λ l. a_number i ∷ l) args k
          (read_args-Reads args k hk fk)
  read_args-Reads (a_text s ∷ args) b h f =
      Reads-text fuel (a_text s ∷ args) s args _ b h f λ k hk fk.
        Reads-map (read_args fuel (map kind args)) (λ l. a_text s ∷ l) args k
          (read_args-Reads args k hk fk)

  pub read_modes-Reads :
      (modes : List (ℤ × Text)) (b : Text)
      → args_bytes (mode_args modes) ≡ some b
      → length b + 8 < fuel
      → Reads (read_modes fuel (length modes)) modes b
  unfolding read_modes
  read_modes-Reads [] b h f = Reads-end fuel [] b h
  read_modes-Reads ((mode, name) ∷ modes) b h f =
      Reads-number fuel ((mode, name) ∷ modes) mode (a_text name ∷ mode_args modes) _ b h f
        λ k hk fk.
          Reads-text fuel ((mode, name) ∷ modes) name (mode_args modes) _ k hk fk λ j hj fj.
            Reads-map (read_modes fuel (length modes)) (λ l. (mode, name) ∷ l) modes j
              (read_modes-Reads modes j hj fj)

  read_expressions-more :
      (n : ℕ) (t : Text) (expressions : List Text) (c : Conn)
      → IsNotEnd t
      → read_expressions fuel (suc n) t expressions c
        ≡ Wire.◌>>=◌ (read_string fuel c) (λ u. read_expressions fuel n u (add t expressions))
  unfolding read_expressions
  read_expressions-more n t expressions c e = rw (e, read_expressions) refl

  read_expressions-stop :
      (n : ℕ) (expressions : List Text) (c : Conn)
      → 0 < n
      → read_expressions fuel n (codes "-") expressions c ≡ done expressions c
  unfolding read_expressions
  read_expressions-stop zero expressions c h = absurd (omega arith)
  read_expressions-stop (suc n) expressions c h = refl

  -- The texts after the one that is at hand
  read_expressions-Reads :
      (t : Text) (ts : List Text) (n : ℕ) (expressions : List Text) (b : Text)
      → IsNotEnd t
      → All IsNotEnd ts
      → length ts + 1 < n
      → args_bytes (text_args ts) ≡ some b
      → length b + 8 < fuel
      → Reads (read_expressions fuel n t expressions) (add_all (t ∷ ts) expressions) b
  read_expressions-Reads t ts zero expressions b e a l h f = absurd (omega arith)
  read_expressions-Reads t ts (suc zero) expressions b e a l h f = absurd (omega arith)
  read_expressions-Reads t [] (suc (suc n)) expressions b e a l h f =
      Reads-eq _ _ _ b (λ c. read_expressions-more (suc n) t expressions c e)
        (Reads-text fuel (add t expressions) (codes "-") []
          (λ u. read_expressions fuel (suc n) u (add t expressions)) b h f
          λ k hk fk.
            Reads-eq _ _ _ k
              (λ c. read_expressions-stop (suc n) (add t expressions) c (omega arith))
              (Reads-end fuel (add t expressions) k hk))
  read_expressions-Reads t (u ∷ ts) (suc (suc n)) expressions b e a l h f =
      Reads-eq _ _ _ b (λ c. read_expressions-more (suc n) t expressions c e)
        (Reads-text fuel (add_all (t ∷ u ∷ ts) expressions) u (text_args ts)
          (λ v. read_expressions fuel (suc n) v (add t expressions)) b h f
          λ k hk fk.
            read_expressions-Reads u ts (suc n) (add t expressions) k a.0 a.1 (omega arith) hk fk)

length-text_args : (ts : List Text) → length (text_args ts) ≡ length ts + 1
length-text_args [] = omega arith
length-text_args (t ∷ ts) = omega (arith, length-text_args ts)

module _ (is_space : ℕ → Bool) where
  -- The set that is read of the texts of a statement
  abbrev pub received_texts : List Text → List Text
  received_texts [] = codes "*" ∷ []
  received_texts (t ∷ ts) = or_star (add_all (strip is_space t ∷ ts) [])

  abbrev pub received_statement : Statement → Statement
  received_statement s = record s { expressions = received_texts s.expressions }

  -- No text is the one that ends a statement, which is the same when it is stripped.
  abbrev pub AreTexts : List Text → Type 0
  AreTexts [] = strip is_space (codes "-") ≡ codes "-"
  AreTexts (t ∷ ts) = IsNotEnd (strip is_space t) × All IsNotEnd ts

  module _ (fuel : ℕ) where
    -- The texts of a statement, and what is made of them
    texts-Reads :
        {A : Type 0} (g : List Text → A) (ts : List Text) (b : Text)
        → AreTexts ts
        → args_bytes (text_args ts) ≡ some b
        → length b + 8 < fuel
        → Reads
            (λ c. Wire.◌>>=◌ (read_string fuel c) λ t c'.
              Wire.◌>>=◌
                (read_expressions fuel fuel (strip is_space t) [] c')
                λ expressions c''. done (g (or_star expressions)) c'')
            (g (received_texts ts))
            b
    texts-Reads g [] b e h f =
        Reads-text fuel (g (received_texts [])) (codes "-") [] _ b h f λ k hk fk.
          Reads-eq _ (λ c. done (g (received_texts [])) c) (g (received_texts [])) k
            (λ c. rw (e, read_expressions-stop fuel fuel [] c (omega arith)) refl)
            (Reads-end fuel (g (received_texts [])) k hk)
    texts-Reads g (t ∷ ts) b e h f =
        Reads-text fuel (g (received_texts (t ∷ ts))) t (text_args ts) _ b h f λ k hk fk.
          Reads-map (read_expressions fuel fuel (strip is_space t) []) (λ l. g (or_star l))
            (add_all (strip is_space t ∷ ts) []) k
            (read_expressions-Reads fuel (strip is_space t) ts fuel [] k e.0 e.1
              (omega (arith, length-text_args ts, length-le-args_bytes (text_args ts) k hk)) hk fk)

    read_statement-Reads :
        (s : Statement) (b : Text)
        → AreTexts s.expressions
        → args_bytes (a_number s.line_start ∷ a_number s.line_end ∷ text_args s.expressions)
          ≡ some b
        → length b + 8 < fuel
        → Reads (read_statement is_space fuel) (received_statement s) b
    unfolding read_statement
    read_statement-Reads s b e h f =
        Reads-number fuel (received_statement s) s.line_start
          (a_number s.line_end ∷ text_args s.expressions) _ b h f
          λ k hk fk.
            Reads-number fuel (received_statement s) s.line_end (text_args s.expressions) _ k hk fk
              λ j hj fj.
                texts-Reads
                  (λ l. record {
                    line_start = s.line_start;
                    line_end = s.line_end;
                    expressions = l;
                  })
                  s.expressions j e hj fj

    pub read_statements-Reads :
        (statements : List Statement) (b : Text)
        → All (λ s. AreTexts s.expressions) statements
        → args_bytes (statement_args statements) ≡ some b
        → length b + 8 < fuel
        → Reads
            (read_statements is_space fuel (length statements))
            (map received_statement statements)
            b
    unfolding read_statements
    read_statements-Reads [] b e h f = Reads-end fuel [] b h
    read_statements-Reads (s ∷ statements) b e h f =
        Reads-append fuel (map received_statement (s ∷ statements)) (read_statement is_space fuel)
          (received_statement s)
          (a_number s.line_start ∷ a_number s.line_end ∷ text_args s.expressions)
          (statement_args statements) _ b h f (λ k hk fk. read_statement-Reads s k e.0 hk fk)
          (λ k hk fk.
            Reads-map (read_statements is_space fuel (length statements))
              (λ l. received_statement s ∷ l) (map received_statement statements) k
              (read_statements-Reads statements k e.1 hk fk))
