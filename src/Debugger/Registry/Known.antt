-- ===== src/Debugger/Registry/Known.antt =====
-- The threads that the client knows are those in THREADS.
use python_vscode.Prelude.{
  ℕ, Bool, true, false, Option, none, some, List, [], ◌∷◌, ◌++◌, ◌==◌, if◌then◌else◌, nat_eq, ◌≡◌,
  refl, sym, ap, ◌∙◌, subst, arith, Bool-cases, Option-cases, inl, inr,
}
use python_vscode.Prelude.Dict.{lookup, lookup-insert}
use python_vscode.Prelude.Int.{ℤ}
use python_vscode.Debugger.Registry.{
  Tracked, Registry, Message, started, exited, detached_process, is_key, add_key, remove_key,
  unless_detached, register, new_thread, new_external_thread, delete, is_detached_thread, reported,
  wrapper_ends, main_ends, command_detach, Event, starts, starts_external, ends, ends_main,
  detaches, handle_event, run,
}

-- The threads that the client knows after some messages
abbrev pub heard : List Message → List ℕ → List ℕ
heard [] ids = ids
heard (started id ∷ sent) ids = heard sent (add_key id ids)
heard (exited id ∷ sent) ids = heard sent (remove_key id ids)
heard (detached_process ∷ sent) ids = heard sent ids

heard-append : (a b : List Message) (ids : List ℕ) → heard (a ++ b) ids ≡ heard b (heard a ids)
heard-append [] b ids = refl
heard-append (started id ∷ a) b ids = heard-append a b (add_key id ids)
heard-append (exited id ∷ a) b ids = heard-append a b (remove_key id ids)
heard-append (detached_process ∷ a) b ids = heard-append a b ids

-- No thread is told to detach.
abbrev pub AreLive : Registry → Type 0
AreLive r = (id : ℕ) → is_detached_thread (lookup id r.objects) ≡ false

-- What one event leaves, while nothing is detached
abbrev Kept : Registry → Registry → List Message → Type 0
Kept r s sent = (heard sent r.threads ≡ s.threads) × AreLive s × (r.detached ≡ false)

inserted-IsLive :
    (b : Bool) (mode : ℤ) (o : Option Tracked)
    → is_detached_thread o ≡ false
    → is_detached_thread
        (if b then some (record { stepping = mode; is_blocked = false; detach = false }) else o)
      ≡ false
inserted-IsLive true mode o h = refl
inserted-IsLive false mode o h = h

register-Kept :
    (id : ℕ) (mode : ℤ) (r : Registry)
    → AreLive r
    → (register id mode r).0.detached ≡ false
    → Kept r (register id mode r).0 (register id mode r).1
unfolding register
register-Kept id mode r live d = rw d (
  refl,
  λ j.
      rw
        (lookup-insert id j (record { stepping = mode; is_blocked = false; detach = false })
          r.objects)
        (inserted-IsLive (id == j) mode (lookup j r.objects) (live j)),
  refl,
)

delete-Kept :
    (id : ℕ) (r s : Registry)
    → AreLive r
    → delete id r ≡ some s
    → (remove_key id r.threads ≡ s.threads) × AreLive s × (r.detached ≡ s.detached)
delete-Kept id r s live e = elim (Bool-cases (is_key id r.threads)) [
  | inl k ↦
      let q : record r { threads = remove_key id r.threads } ≡ s = cc (rw k at e) in
      rw (← q) (refl, live, refl)
  | inr n ↦ absurd (cc (rw n at e))
]

-- The exit of a thread is reported.
exited-Kept :
    (id : ℕ) (r u s : Registry) (sent : List Message)
    → (remove_key id r.threads ≡ u.threads) × AreLive u × (r.detached ≡ u.detached)
    → u ≡ s
    → (u.detached ≡ false → exited id ∷ [] ≡ sent)
    → s.detached ≡ false
    → Kept r s sent
exited-Kept id r u s sent k q w d =
    let live : u.detached ≡ false = ap (λ (x : Registry). x.detached) q ∙ d in
    subst (λ (x : Registry). Kept r x sent) q (rw (← w live) (k.0, k.1, k.2 ∙ live))

-- Of a thread that is in THREADS
deleted-Kept :
    (id : ℕ) (r s : Registry) (sent : List Message) (report : Registry → List Message)
    (o : Option Registry)
    → ((u : Registry) → u.detached ≡ false → report u ≡ exited id ∷ [])
    → ((u : Registry)
        → o ≡ some u
        → (remove_key id r.threads ≡ u.threads) × AreLive u × (r.detached ≡ u.detached))
    → reported report o ≡ some (s, sent)
    → s.detached ≡ false
    → Kept r s sent
deleted-Kept id r s sent report none p h e d = absurd (cc e)
deleted-Kept id r s sent report (some u) p h e d =
    let w : report u ≡ sent = cc e in
    exited-Kept id r u s sent (h u refl) (cc e) (λ live. sym (p u live) ∙ w) d

started-Kept :
    (id : ℕ) (mode : ℤ) (r s : Registry) (sent : List Message)
    → AreLive r
    → some (register id mode r) ≡ some (s, sent)
    → s.detached ≡ false
    → Kept r s sent
started-Kept id mode r s sent live h d =
    let q : (register id mode r).0 ≡ s = cc h in
    let w : (register id mode r).1 ≡ sent = cc h in
    let k = register-Kept id mode r live (ap (λ (x : Registry). x.detached) q ∙ d) in
    subst (λ (x : Registry). Kept r x sent) q (rw (← w) k)

-- The thread of the debugger is left out.
new_thread-Kept :
    (id : ℕ) (mode : ℤ) (r s : Registry) (sent : List Message)
    → AreLive r
    → some (if id == r.debugger_thread_id then (r, []) else register id mode r) ≡ some (s, sent)
    → s.detached ≡ false
    → Kept r s sent
new_thread-Kept id mode r s sent live h d = elim (Bool-cases (id == r.debugger_thread_id)) [
  | inl e ↦
      let q : r ≡ s = cc (rw e at h) in
      let w : [] ≡ sent = cc (rw e at h) in
      subst (λ (x : Registry). Kept r x sent) q
        (rw (← w) (refl, live, ap (λ (x : Registry). x.detached) q ∙ d))
  | inr n ↦ started-Kept id mode r s sent live (rw n at h) d
]

event-Kept :
    (e : Event) (r s : Registry) (sent : List Message)
    → AreLive r
    → handle_event e r ≡ some (s, sent)
    → s.detached ≡ false
    → Kept r s sent
unfolding handle_event new_thread new_external_thread wrapper_ends main_ends command_detach
event-Kept (starts id set_break) r s sent live h d = new_thread-Kept id _ r s sent live h d
event-Kept (starts_external id) r s sent live h d = started-Kept id _ r s sent live h d
event-Kept (ends id) r s sent live h d =
    deleted-Kept id r s sent (λ u. unless_detached u (exited id ∷ [])) (delete id r)
      (λ u e. rw e refl) (λ u e. delete-Kept id r u live e) (rw (live id) at h) d
event-Kept (ends_main id) r s sent live h d =
    deleted-Kept id r s sent (λ u. exited id ∷ []) (delete id r) (λ u e. refl)
      (λ u e. delete-Kept id r u live e) h d
event-Kept detaches r s sent live h d =
    let q : (command_detach r).0 ≡ s = cc h in absurd (cc (ap (λ (x : Registry). x.detached) q ∙ d))

-- Nothing undoes a detach.
event_undetached :
    (e : Event) (r s : Registry) (sent : List Message)
    → handle_event e r ≡ some (s, sent)
    → s.detached ≡ false
    → r.detached ≡ false
unfolding handle_event new_thread new_external_thread register wrapper_ends main_ends command_detach
event_undetached (starts id set_break) r s sent h d = ground arith
event_undetached (starts_external id) r s sent h d = ground arith
event_undetached (ends id) r s sent h d = ground arith
event_undetached (ends_main id) r s sent h d = ground arith
event_undetached detaches r s sent h d = ground arith

-- What the first event and those after it have done
run-cons :
    (e : Event) (events : List Event) (r s : Registry) (sent : List Message)
    → run (e ∷ events) r ≡ some (s, sent)
    → (u : Registry) × (first rest : List Message) × (handle_event e r ≡ some (u, first))
      × (run events u ≡ some (s, rest))
      × (first ++ rest ≡ sent)
unfolding run
run-cons e events r s sent h = elim (Option-cases (handle_event e r)) [
  | inl n ↦ absurd (cc (rw (n, run) at h))
  | inr ((u, first), k) ↦ elim (Option-cases (run events u)) [
    | inl n ↦ absurd (cc (rw (k, run, n) at h))
    | inr ((v, rest), m) ↦
        let q : v ≡ s = cc (rw (k, run, m) at h) in
        let w : first ++ rest ≡ sent = cc (rw (k, run, m) at h) in
        (u, first, rest, k, rw (← q) m, w)
  ]
]

run-nil : (r s : Registry) (sent : List Message) → run [] r ≡ some (s, sent) → (r ≡ s) × ([] ≡ sent)
unfolding run
run-nil r s sent h = (cc h, cc h)

run_undetached :
    (events : List Event) (r s : Registry) (sent : List Message)
    → run events r ≡ some (s, sent)
    → s.detached ≡ false
    → r.detached ≡ false
run_undetached [] r s sent h d = ap (λ (x : Registry). x.detached) (run-nil r s sent h).0 ∙ d
run_undetached (e ∷ events) r s sent h d =
    let (u, first, rest, k, m, w) = run-cons e events r s sent h in
    event_undetached e r u first k (run_undetached events u s rest m d)

-- While the debugger is not detached, from a registry where no thread is told to detach, the threads that the
-- client knows are the keys of THREADS: whatever threads start and end, its view, if it was that at the start,
-- is that at the end.
pub run-heard :
    (events : List Event) (r s : Registry) (sent : List Message)
    → AreLive r
    → run events r ≡ some (s, sent)
    → s.detached ≡ false
    → heard sent r.threads ≡ s.threads
run-heard [] r s sent live h d =
    rw (← (run-nil r s sent h).1) (ap (λ (x : Registry). x.threads) (run-nil r s sent h).0)
run-heard (e ∷ events) r s sent live h d =
    let (u, first, rest, k, m, w) = run-cons e events r s sent h in
    let kept = event-Kept e r u first live k (run_undetached events u s rest m d) in
    rw (← w) (
      heard-append first rest r.threads
      ∙ (ap (heard rest) kept.0 ∙ run-heard events u s rest kept.1 m d))
