-- ===== src/Repl/Main/Shown.antt =====
-- What the window shows while items run.
use python_vscode.Prelude.{
  Text, false, Option, codes, none, some, List, [], ◌∷◌, ◌++◌, ◌≡◌, ◌≢◌, ◌⊎◌, inl, inr, refl, sym,
  ◌∙◌, arith, Bool-cases, same_iff,
}
use python_vscode.Repl.Main.{
  Item, Session, Ending, returned, system_exit, raised, Executor, Main, Message, prompt, directory,
  errors, executed, failed, exited, modules_changed, Turn, prompts, directories, noticed,
  after_item, execute, run_one_command, next_turn, run_items, execution_loop,
}

-- What the window shows: the two prompts and the working directory
pub record Window : Type 0 where
  pub ps1 : Text
  pub ps2 : Text
  pub cwd : Text

abbrev pub hear : List Message → Window → Window
hear [] w = w
hear (prompt p q ∷ sent) w = hear sent (record w { ps1 = p; ps2 = q })
hear (directory d ∷ sent) w = hear sent (record w { cwd = d })
hear (_ ∷ sent) w = hear sent w

hear-append : (a b : List Message) (w : Window) → hear (a ++ b) w ≡ hear b (hear a w)
hear-append [] b w = refl
hear-append (prompt p q ∷ a) b w = hear-append a b _
hear-append (directory d ∷ a) b w = hear-append a b _
hear-append (executed ∷ a) b w = hear-append a b w
hear-append (failed ∷ a) b w = hear-append a b w
hear-append (errors t ∷ a) b w = hear-append a b w
hear-append (exited ∷ a) b w = hear-append a b w
hear-append (modules_changed ∷ a) b w = hear-append a b w

-- Both prompts are set.
abbrev pub IsPrompted : Session → Type 0
IsPrompted s = (s.ps1 ≢ none) × (s.ps2 ≢ none)

-- The window shows the prompts and the directory of the session.
abbrev pub Shows : Window → Session → Type 0
Shows w s = (s.ps1 ≡ some w.ps1) × (s.ps2 ≡ some w.ps2) × (s.cwd ≡ w.cwd)

abbrev pub SameShown : Session → Session → Type 0
SameShown s t = (t.ps1 ≡ s.ps1) × (t.ps2 ≡ s.ps2) × (t.cwd ≡ s.cwd)

-- The loop remembers the prompts that the window shows.
abbrev Remembers : Main → Window → Type 0
Remembers m w = (m.cur_ps1 ≡ w.ps1) × (m.cur_ps2 ≡ w.ps2)

prompts-shown :
    (p q : Text) (m : Main) (w : Window)
    → Remembers m w
    → (hear (prompts (some p) (some q) m).0 w ≡ record w { ps1 = p; ps2 = q })
      × ((prompts (some p) (some q) m).1.cur_ps1 ≡ p)
      × ((prompts (some p) (some q) m).1.cur_ps2 ≡ q)
unfolding prompts
prompts-shown p q m w h = ground (arith, same_iff m.cur_ps1 p, same_iff m.cur_ps2 q)

directories-shown :
    (c d : Text) (w : Window) → w.cwd ≡ c → hear (directories c d) w ≡ record w { cwd = d }
unfolding directories
directories-shown c d w e = ground (arith, same_iff c d)

hear-noticed : (modules : List Text) (m : Main) (w : Window) → hear (noticed modules m) w ≡ w
hear-noticed modules m w = ground arith

-- After the prompts and the directory of an item that returns
prompted-shown :
    (p q : Text) (c d : Text) (m : Main) (w : Window)
    → w.cwd ≡ c
    → Remembers m w
    → hear ((prompts (some p) (some q) m).0 ++ directories c d) w
      ≡ record { ps1 = p; ps2 = q; cwd = d }
prompted-shown p q c d m w e h =
    hear-append (prompts (some p) (some q) m).0 (directories c d) w
    ∙ rw ((prompts-shown p q m w h).0) (directories-shown c d _ e)

returned-shown :
    (p q : Option Text) (c d : Text) (m : Main) (w : Window)
    → w.cwd ≡ c
    → Remembers m w
    → p ≢ none
    → q ≢ none
    → let w' : Window = hear ((prompts p q m).0 ++ directories c d) w in
      ((p ≡ some w'.ps1) × (q ≡ some w'.ps2) × (d ≡ w'.cwd)) × Remembers (prompts p q m).1 w'
returned-shown none q c d m w e h p' q' = absurd (p' refl)
returned-shown (some p) none c d m w e h p' q' = absurd (q' refl)
returned-shown (some p) (some q) c d m w e h p' q' =
    rw (prompted-shown p q c d m w e h)
      ((refl, refl, refl), ((prompts-shown p q m w h).1, (prompts-shown p q m w h).2))

-- After an item that returns, or that leaves what is shown as it was
after_item-shown :
    (ending : Ending) (s t : Session) (m : Main) (w : Window)
    → Shows w s
    → Remembers m w
    → IsPrompted t
    → (ending ≡ returned) ⊎ SameShown s t
    → Shows (hear (after_item s.cwd ending t m).sent w) t
      × Remembers (after_item s.cwd ending t m).main (hear (after_item s.cwd ending t m).sent w)
unfolding after_item
after_item-shown returned s t m w h r p o =
    returned-shown t.ps1 t.ps2 s.cwd t.cwd m w (sym h.2) r p.0 p.1
after_item-shown system_exit s t m w h r p (inl e) = cc
after_item-shown system_exit s t m w h r p (inr e) = ground arith
after_item-shown (raised text) s t m w h r p (inl e) = cc
after_item-shown (raised text) s t m w h r p (inr e) = ground arith

-- An item that has ended keeps the prompts set, and if it has not returned, it has left them and the
-- directory as they were.
abbrev pub IsTidy : Session → Ending × Session → Type 0
IsTidy s (ending, t) = IsPrompted t × ((ending ≡ returned) ⊎ SameShown s t)

-- What holds of the rest, if there is one
abbrev pub UnlessExit : Ending → Type 0 → Type 0
UnlessExit returned X = X
UnlessExit system_exit X = Unit
UnlessExit (raised text) X = X

-- In this run, every item that is executed is tidy.
abbrev pub IsTidyRun : Executor → List (Option Item) → Session → Type 0
IsTidyRun executor [] s = Unit
IsTidyRun executor (item ∷ items) s =
    IsTidy s (execute executor item s)
    × UnlessExit (execute executor item s).0 (IsTidyRun executor items (execute executor item s).1)

rest_of :
    {X : Type 0} (cwd : Text) (ending : Ending) (t : Session) (m : Main)
    → (after_item cwd ending t m).is_exit ≡ false
    → UnlessExit ending X
    → X
unfolding after_item
rest_of cwd returned t m e x = x
rest_of cwd system_exit t m e x = cc
rest_of cwd (raised text) t m e x = x

session-after_item :
    (cwd : Text) (ending : Ending) (t : Session) (m : Main)
    → (after_item cwd ending t m).session ≡ t
unfolding after_item
session-after_item cwd returned t m = refl
session-after_item cwd system_exit t m = refl
session-after_item cwd (raised text) t m = refl

-- What holds between two turns
abbrev Between : Session → Main → Window → Type 0
Between s m w = IsPrompted s × Shows w s × Remembers m w

turn-shown :
    (executor : Executor) (item : Option Item) (s : Session) (m : Main) (w : Window)
    → IsTidy s (execute executor item s)
    → Between s m w
    → let turn : Turn = run_one_command executor false item s s m in
      Between turn.session turn.main (hear turn.sent w)
unfolding run_one_command
turn-shown executor item s m w tidy (p, h, r) =
    let t : Session = (execute executor item s).1 in
    let m' : Main = record m { cur_modules = s.modules } in
    let ending : Ending = (execute executor item s).0 in
    let (p', o) = tidy in
    rw
      (
        session-after_item s.cwd ending t m',
        hear-append (noticed s.modules m) (after_item s.cwd ending t m').sent w,
        hear-noticed s.modules m w,
      )
      (
        p',
        (after_item-shown ending s t m' w h r p' o).0,
        (after_item-shown ending s t m' w h r p' o).1,
      )

remaining :
    (executor : Executor) (item : Option Item) (items : List (Option Item)) (s : Session) (m : Main)
    → UnlessExit (execute executor item s).0 (IsTidyRun executor items (execute executor item s).1)
    → (run_one_command executor false item s s m).is_exit ≡ false
    → IsTidyRun executor items (run_one_command executor false item s s m).session
unfolding run_one_command
remaining executor item items s m rest e =
    let t : Session = (execute executor item s).1 in
    let m' : Main = record m { cur_modules = s.modules } in
    let ending : Ending = (execute executor item s).0 in
    rw (session-after_item s.cwd ending t m') (rest_of s.cwd ending t m' e rest)

next_turn-shown :
    (turn : Turn) (sent : List Message) (last : Session) (w : Window)
    → Shows (hear turn.sent w) turn.session
    → (turn.is_exit ≡ false → Shows (hear sent (hear turn.sent w)) last)
    → Shows (hear (next_turn turn (sent, last)).0 w) (next_turn turn (sent, last)).1
next_turn-shown turn sent last w h k = elim (Bool-cases turn.is_exit) [
  | inl e ↦ rw e h
  | inr e ↦ rw (e, hear-append turn.sent sent w) (k e)
]

run_items-shown :
    (executor : Executor) (items : List (Option Item)) (s : Session) (m : Main) (w : Window)
    → IsTidyRun executor items s
    → Between s m w
    → Shows (hear (run_items executor items s m).0 w) (run_items executor items s m).1
unfolding run_items
run_items-shown executor [] s m w tidy b = b.1
run_items-shown executor (item ∷ items) s m w tidy b =
    let turn : Turn = run_one_command executor false item s s m in
    let b' : Between turn.session turn.main (hear turn.sent w) =
      turn-shown executor item s m w tidy.0 b in
    next_turn-shown turn _ _ w b'.1 (λ e.
      run_items-shown executor items turn.session turn.main (hear turn.sent w)
        (remaining executor item items s m tidy.1 e) b')

-- The prompts that the loop starts with
abbrev pub first_prompts : Option Text → Option Text → Text × Text
first_prompts (some p) (some q) = (p, q)
first_prompts (some p) none = (codes ">>> ", codes "... ")
first_prompts none q = (codes ">>> ", codes "... ")

-- The session with them
abbrev pub with_prompts : Session → Session
with_prompts s = let (p, q) = first_prompts s.ps1 s.ps2 in record s { ps1 = some p; ps2 = some q }

-- The loop is that of its items, after the prompts.
execution_loop-run_items :
    (executor : Executor) (items : List (Option Item)) (s : Session)
    → let (p, q) = first_prompts s.ps1 s.ps2 in
      execution_loop executor items s ≡ (
        let (sent, last) =
          run_items executor items
            (with_prompts s)
            (record { cur_modules = []; cur_ps1 = p; cur_ps2 = q }) in
        (prompt p q ∷ sent, last))
unfolding execution_loop
execution_loop-run_items executor items s = go s.ps1 s.ps2 refl refl
  where
    go :
        (p q : Option Text)
        → s.ps1 ≡ p
        → s.ps2 ≡ q
        → let (p', q') = first_prompts s.ps1 s.ps2 in
          execution_loop executor items s ≡ (
            let (sent, last) =
              run_items executor items
                (with_prompts s)
                (record { cur_modules = []; cur_ps1 = p'; cur_ps2 = q' }) in
            (prompt p' q' ∷ sent, last))
    go (some p) (some q) e f = rw (e, f) refl
    go (some p) none e f = rw (e, f) refl
    go none (some q) e f = rw e refl
    go none none e f = rw e refl

-- If every item that is executed keeps the prompts set, and each that does not return leaves them and the
-- directory as they were, then the window shows the prompts and the directory of the session after the items,
-- whatever prompts it has shown before, if it has shown the directory that the loop starts in.
pub execution_loop-shown :
    (executor : Executor) (items : List (Option Item)) (s : Session) (w : Window)
    → IsTidyRun executor items (with_prompts s)
    → w.cwd ≡ s.cwd
    → Shows (hear (execution_loop executor items s).0 w) (execution_loop executor items s).1
execution_loop-shown executor items s w tidy e = rw (execution_loop-run_items executor items s) (
    run_items-shown executor items (with_prompts s) _ _ tidy
      ((ground arith, ground arith), (refl, refl, sym e), (refl, refl)))
