-- ===== src/Repl/Main/Answered.antt =====
-- The answers to the items that run.
use python_vscode.Prelude.{
  Text, Option, none, some, List, [], ◌∷◌, ◌++◌, map, ◌≡◌, refl, ap, ◌∙◌, arith,
}
use python_vscode.Repl.Main.{
  Item, Session, Ending, returned, system_exit, raised, Executor, Main, Message, prompt, directory,
  errors, executed, failed, exited, modules_changed, prompts, directories, noticed, after_item,
  execute, next_turn, run_items,
}

-- The answers among the messages: that an item has been executed, or has failed
abbrev pub answers : List Message → List Message
answers [] = []
answers (executed ∷ sent) = executed ∷ answers sent
answers (failed ∷ sent) = failed ∷ answers sent
answers (_ ∷ sent) = answers sent

abbrev pub answer : Ending → Message
answer returned = executed
answer _ = failed

-- How the items end that are run, one after the other, up to a `SystemExit`
abbrev pub endings : Executor → List (Option Item) → Session → List Ending
endings executor [] s = []
endings executor (item ∷ items) s =
    let (ending, s') = execute executor item s in
    elim ending [ system_exit ↦ system_exit ∷ [] | other ↦ other ∷ endings executor items s' ]

answers-append : (a b : List Message) → answers (a ++ b) ≡ answers a ++ answers b
answers-append [] b = refl
answers-append (executed ∷ a) b = ap (λ l. executed ∷ l) (answers-append a b)
answers-append (failed ∷ a) b = ap (λ l. failed ∷ l) (answers-append a b)
answers-append (prompt p q ∷ a) b = answers-append a b
answers-append (directory d ∷ a) b = answers-append a b
answers-append (errors t ∷ a) b = answers-append a b
answers-append (exited ∷ a) b = answers-append a b
answers-append (modules_changed ∷ a) b = answers-append a b

answers-noticed : (modules : List Text) (m : Main) → answers (noticed modules m) ≡ []
answers-noticed modules m = ground arith

answers-directories : (a b : Text) → answers (directories a b) ≡ []
unfolding directories
answers-directories a b = ground arith

answers-prompts : (p q : Option Text) (m : Main) → answers (prompts p q m).0 ≡ []
unfolding prompts
answers-prompts none q m = refl
answers-prompts (some p) none m = refl
answers-prompts (some p) (some q) m = ground arith

answers-after_item :
    (cwd : Text) (ending : Ending) (s : Session) (m : Main)
    → answers (after_item cwd ending s m).sent ≡ answer ending ∷ []
unfolding after_item
answers-after_item cwd returned s m =
    ap (λ l. executed ∷ l)
      (answers-append (prompts s.ps1 s.ps2 m).0 (directories cwd s.cwd)
        ∙ rw (answers-prompts s.ps1 s.ps2 m, answers-directories cwd s.cwd) refl)
answers-after_item cwd system_exit s m = refl
answers-after_item cwd (raised t) s m = refl

-- The answers to a turn and to the turns after it
answers-turn :
    (before after rest : List Message) (a : List Message)
    → answers before ≡ []
    → answers after ≡ a
    → answers ((before ++ after) ++ rest) ≡ a ++ answers rest
answers-turn before after rest a e h =
    answers-append (before ++ after) rest ∙ rw (answers-append before after, e, h) refl

answers_step :
    (executor : Executor) (items : List (Option Item))
    → ((s : Session) (m : Main)
        → answers (run_items executor items s m).0 ≡ map answer (endings executor items s))
    → (before : List Message) (cwd : Text) (ending : Ending) (s : Session) (m : Main)
    → answers before ≡ []
    → answers
        (next_turn
          (record (after_item cwd ending s m) { sent = before ++ (after_item cwd ending s m).sent })
          (run_items executor items
            (after_item cwd ending s m).session
            (after_item cwd ending s m).main)).0
      ≡ map answer (elim ending [
        | system_exit ↦ system_exit ∷ []
        | other ↦ other ∷ endings executor items s
      ])
answers_step executor items ih before cwd returned s m e =
    unfold after_item in
    (answers-turn before _ _ _ e (answers-after_item cwd returned s m) ∙ rw (ih s _) refl)
answers_step executor items ih before cwd system_exit s m e =
    unfold after_item in (answers-append before _ ∙ rw e refl)
answers_step executor items ih before cwd (raised t) s m e =
    unfold after_item in (answers-turn before _ _ _ e refl ∙ rw (ih s m) refl)

-- Every item that is run gets one answer, in order: that it has been executed where it returns, and that it
-- has failed otherwise; nothing is run after a `SystemExit`.
pub run_items-answers :
    (executor : Executor) (items : List (Option Item)) (s : Session) (m : Main)
    → answers (run_items executor items s m).0 ≡ map answer (endings executor items s)
unfolding run_items
run_items-answers executor [] s m = refl
run_items-answers executor (item ∷ items) s m =
    answers_step executor items (run_items-answers executor items) (noticed s.modules m) s.cwd
      (execute executor item s).0 (execute executor item s).1 (record m { cur_modules = s.modules })
      (answers-noticed s.modules m)
