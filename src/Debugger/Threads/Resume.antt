-- ===== src/Debugger/Threads/Resume.antt =====
-- What a command to step or to resume leaves of the threads.
use python_vscode.Prelude.{
  ℕ, ◌≡◌, refl, ap, ◌∙◌, Bool, true, false, ◌||◌, Option, none, some, [], ◌∷◌, ◌==◌, if◌then◌else◌,
  nat_eq, Bool-cases, inl, inr,
}
use python_vscode.Prelude.Int.{ℤ, eqb_ℤ}
use python_vscode.Prelude.Dict.{lookup, insert, lookup-insert}
use python_vscode.Debugger.Stepping.{Thread, stepping_break, stepping_attach_break, stepping_none}
use python_vscode.Debugger.Threads.{Threads, map_values, resume, command_step}

abbrev map_found : (Thread → Thread) → Option Thread → Option Thread
map_found f none = none
map_found f (some t) = some (f t)

lookup-map_values :
    (f : Thread → Thread) (j : ℕ) (threads : Threads)
    → lookup j (map_values f threads) ≡ map_found f (lookup j threads)
unfolding lookup map_values
lookup-map_values f j [] = refl
lookup-map_values f j ((id, t) ∷ threads) = elim (Bool-cases (id == j)) [
  | inl e ↦ rw e
  | inr e ↦ rw e (lookup-map_values f j threads)
]

-- The mode of a thread that is resumed: a break is over, and any other mode stays.
abbrev pub unless_break : ℤ → ℤ
unless_break mode =
    if eqb_ℤ mode stepping_break
    then stepping_none
    else if eqb_ℤ mode stepping_attach_break
    then stepping_none
    else mode

abbrev pub resumed_thread : Option Thread → Option Thread
resumed_thread none = none
resumed_thread (some t) = some (record t { stepping = unless_break t.stepping; is_blocked = false })

map_found-resume : (o : Option Thread) → map_found resume o ≡ resumed_thread o
unfolding resume
map_found-resume none = refl
map_found-resume (some t) = elim (Bool-cases (eqb_ℤ t.stepping stepping_break)) [
  | inl e ↦ rw e refl
  | inr n ↦ rw n refl
]

-- A command to step a blocked thread, in a mode that is not one of the two breaks, raises nothing,
-- and leaves that thread unblocked in the mode, and every other thread unblocked in the mode that it
-- had, or in none if that was one of the breaks.
pub command_step_lem :
    (mode : ℤ) (id j : ℕ) (threads : Threads) (t : Thread)
    → lookup id threads ≡ some t
    → t.is_blocked ≡ true
    → (eqb_ℤ mode stepping_break || eqb_ℤ mode stepping_attach_break) ≡ false
    → (out : Threads) × (command_step mode id threads ≡ some out)
      × (lookup j out ≡ (
          if id == j
          then some (record t { stepping = mode; is_blocked = false })
          else resumed_thread (lookup j threads)))
unfolding command_step
command_step_lem mode id j threads t h b m =
    let set : Thread = record t { stepping = mode } in
    let out : Threads = map_values resume (insert id set threads) in
    (
      out,
      rw h (unblocked t.is_blocked b out),
      lookup-map_values resume j (insert id set threads)
          ∙ ap (map_found resume) (lookup-insert id j set threads)
          ∙ choose (id == j),
    )
  where
    set_mode : Thread
    set_mode = record t { stepping = mode }

    resumed : resume set_mode ≡ record t { stepping = mode; is_blocked = false }
    resumed = unfold resume in rw m

    choose :
        (c : Bool)
        → map_found resume (if c then some set_mode else lookup j threads) ≡ (
            if c
            then some (record t { stepping = mode; is_blocked = false })
            else resumed_thread (lookup j threads))
    choose true = ap some resumed
    choose false = map_found-resume (lookup j threads)

    unblocked : (c : Bool) → c ≡ true → (out : Threads) → (if c then some out else none) ≡ some out
    unblocked true e out = refl
    unblocked false e out = cc
