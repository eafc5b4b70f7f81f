-- ===== src/Debugger/Stepping/Calls.antt =====
-- A step over or out does not stop inside the calls that it passes.
use python_vscode.Prelude.{
  ℕ, zero, suc, ◌≡◌, refl, ◌∙◌, sym, ap, Bool, true, false, none, List, [], ◌∷◌, ◌++◌, arith, ◌⊎◌,
  append_assoc, if◌then◌else◌,
}
use python_vscode.Prelude.Int.{ℤ, pos, negsuc, suc_ℤ, pred_ℤ, ltb_ℤ}
use python_vscode.Debugger.Stepping.{
  Frame, Stack, Globals, Thread, Effect, Message, quiet, says, reported_load, Event, call, line,
  ret, dispatch, handle_call, handle_line, handle_return, should_block_on_frame, stepping_over,
  stepping_out,
}

-- What runs in a frame: lines of it, and calls with all that runs in them, up to the return.
pub data Body : Type 0 where
  finished : Body
  at_line : ℕ → Body → Body
  calls : Frame → ℕ → Body → ℕ → ℕ → Body → Body

-- Its trace events, in a frame with the stack `fs`; no breakpoint is hit.
unfoldable pub events : Stack → Body → List Event
events fs finished = []
events fs (at_line n b) = line fs n none ∷ events fs b
events fs (calls f n inner m caller b) =
    call (f ∷ fs) n ∷ (events (f ∷ fs) inner ++ ret (f ∷ fs) m caller ∷ events fs b)

-- A run of events in which the thread does not stop, or what stopped it.
pub data Run : Type 0 where
  went_on : Thread → Run
  stopped : List Message → Run

unfoldable pub run : Globals → List Event → Thread → Run
run g [] t = went_on t
run g (e ∷ es) t =
    let effect = dispatch e g t in
    elim effect.thread.is_blocked [ true ↦ stopped effect.sent | false ↦ run g es effect.thread ]

abbrev pub after_effect : Globals → List Event → Effect → Run
after_effect g es effect = elim effect.thread.is_blocked [
  | true ↦ stopped effect.sent
  | false ↦ run g es effect.thread
]

-- The modes in which calls are passed over: 5 or more, and -1 or less.
abbrev pub Passes : ℤ → Type 0
Passes s = (ltb_ℤ s stepping_over ≡ false) ⊎ (ltb_ℤ stepping_out s ≡ false)

-- One further from 0.
abbrev pub deeper : ℤ → ℤ
deeper s = if ltb_ℤ s stepping_over then pred_ℤ s else suc_ℤ s

abbrev pub within : Frame → ℤ → ℤ
within f s = if f.debuggable then deeper s else s

-- The frame is passed over: the mode counts a call, or the frame is not debugged.
abbrev pub Inside : Frame → ℤ → Type 0
Inside f s =
    (ltb_ℤ stepping_over s ≡ true)
    ⊎ (ltb_ℤ s stepping_out ≡ true)
    ⊎ ((f.debuggable ≡ false) × Passes s)

Inside-Passes : (f : Frame) (s : ℤ) → Inside f s → Passes s
Inside-Passes f (pos n) h = ground arith
Inside-Passes f (negsuc n) h = ground arith

within-Inside : (f : Frame) (s : ℤ) → Passes s → Inside f (within f s)
within-Inside f (pos zero) h = ground arith
within-Inside f (pos (suc n)) h = ground arith
within-Inside f (negsuc zero) h = ground arith
within-Inside f (negsuc (suc n)) h = ground arith

line_passes :
    (f : Frame) (fs : Stack) (n : ℕ) (g : Globals) (t : Thread)
    → g.detached ≡ false
    → Inside f t.stepping
    → dispatch (line (f ∷ fs) n none) g t ≡ quiet g (record t { cur_line = n })
unfolding dispatch handle_line should_block_on_frame
line_passes f fs n g t d h = ground arith

call-Passes :
    (f : Frame) (fs : Stack) (n : ℕ) (g : Globals) (t : Thread)
    → Passes t.stepping
    → dispatch (call (f ∷ fs) n) g t
      ≡ says
          (reported_load f g)
          g
          (record t { cur_frame = f ∷ fs; cur_line = n; stepping = within f t.stepping })
unfolding dispatch handle_call
call-Passes f fs n g t h = ground arith

return-Passes :
    (f : Frame) (fs : Stack) (m caller : ℕ) (g : Globals) (t : Thread) (s : ℤ)
    → g.detached ≡ false
    → Passes s
    → t.stepping ≡ within f s
    → t.cur_frame ≡ f ∷ fs
    → dispatch (ret (f ∷ fs) m caller) g t
      ≡ quiet g (record t { cur_frame = fs; cur_line = caller; stepping = s })
unfolding dispatch handle_return
return-Passes f fs m caller g t (pos zero) d h e c = ground arith
return-Passes f fs m caller g t (pos (suc n)) d h e c = ground arith
return-Passes f fs m caller g t (negsuc zero) d h e c = ground arith
return-Passes f fs m caller g t (negsuc (suc n)) d h e c = ground arith

abbrev pub last_line : ℕ → Body → ℕ
last_line n finished = n
last_line n (at_line m b) = last_line m b
last_line n (calls f k inner m caller b) = last_line caller b

pub after_effect-says :
    (sent : List Message) (g : Globals) (es : List Event) (t : Thread)
    → t.is_blocked ≡ false
    → after_effect g es (says sent g t) ≡ run g es t
after_effect-says sent g es t u = go t.is_blocked u
  where
    go :
        (b : Bool)
        → b ≡ false
        → elim b as (λ _. Run) [ true ↦ stopped sent | false ↦ run g es t ] ≡ run g es t
    go true h = cc
    go false h = refl

pub run-says :
    (e : Event) (es : List Event) (sent : List Message) (g : Globals) (t t' : Thread)
    → dispatch e g t ≡ says sent g t'
    → t'.is_blocked ≡ false
    → run g (e ∷ es) t ≡ run g es t'
unfolding run
run-says e es sent g t t' q u = ap (after_effect g es) q ∙ after_effect-says sent g es t' u

pub run-quiet :
    (e : Event) (es : List Event) (g : Globals) (t t' : Thread)
    → dispatch e g t ≡ quiet g t'
    → t'.is_blocked ≡ false
    → run g (e ∷ es) t ≡ run g es t'
run-quiet e es = run-says e es []

-- All that runs in a frame that is passed over changes at most the line of the thread.
run-events :
    (f : Frame) (fs : Stack) (b : Body) (g : Globals) (t : Thread) (rest : List Event)
    → g.detached ≡ false
    → t.is_blocked ≡ false
    → t.cur_frame ≡ f ∷ fs
    → Inside f t.stepping
    → run g (events (f ∷ fs) b ++ rest) t
      ≡ run g rest (record t { cur_line = last_line t.cur_line b })
unfolding events
run-events f fs finished g t rest d u c i = refl
run-events f fs (at_line n b) g t rest d u c i =
    run-quiet (line (f ∷ fs) n none) (events (f ∷ fs) b ++ rest) g t (record t { cur_line = n })
      (line_passes f fs n g t d i) u
    ∙ run-events f fs b g (record t { cur_line = n }) rest d u c i
run-events f fs (calls h k inner m caller b) g t rest d u c i =
    let stack : Stack = f ∷ fs in
    let in_call : Thread = record t {
      cur_frame = h ∷ stack;
      cur_line = k;
      stepping = within h t.stepping;
    } in
    let at_return : Thread = record in_call { cur_line = last_line k inner } in
    let back : Thread = record t { cur_frame = stack; cur_line = caller } in
    let p = Inside-Passes f t.stepping i in
    let after : List Event = ret (h ∷ stack) m caller ∷ (events stack b ++ rest) in
    run-says (call (h ∷ stack) k) _ _ g t in_call (call-Passes h stack k g t p) u
    ∙ ap (λ es. run g es in_call)
        (append_assoc (events (h ∷ stack) inner) (ret (h ∷ stack) m caller ∷ events stack b) rest)
    ∙ run-events h stack inner g in_call after d u refl (within-Inside h t.stepping p)
    ∙ run-quiet (ret (h ∷ stack) m caller) (events stack b ++ rest) g at_return back
        (return-Passes h stack m caller g at_return t.stepping d p refl refl) u
    ∙ run-events f fs b g back rest d u refl i
    ∙ ap (λ frames. run g rest (record t { cur_frame = frames; cur_line = last_line caller b }))
        (sym c)

-- A whole call, from the call event to the return, of a frame `h` that the frame `f` makes while the
-- thread steps over (mode 5 and up) or out (mode -1 and down), whatever runs in it and whichever of
-- its frames are debugged: the thread does not stop, and goes on in `f` as it was before the call, in the
-- same mode and with the line where it stopped last, but for the line in `f` to which the call returns, if no
-- breakpoint is hit and the debugger is attached.
pub run-call :
    (h f : Frame) (fs : Stack) (k m caller : ℕ) (inner : Body) (rest : List Event) (g : Globals)
    (t : Thread)
    → g.detached ≡ false
    → t.is_blocked ≡ false
    → t.cur_frame ≡ f ∷ fs
    → Passes t.stepping
    → run g
        (call (h ∷ f ∷ fs) k ∷ (events (h ∷ f ∷ fs) inner ++ ret (h ∷ f ∷ fs) m caller ∷ rest))
        t
      ≡ run g rest (record t { cur_line = caller })
run-call h f fs k m caller inner rest g t d u c p =
    let in_call : Thread = record t {
      cur_frame = h ∷ f ∷ fs;
      cur_line = k;
      stepping = within h t.stepping;
    } in
    let at_return : Thread = record in_call { cur_line = last_line k inner } in
    let back : Thread = record t { cur_frame = f ∷ fs; cur_line = caller } in
    run-says (call (h ∷ f ∷ fs) k) _ _ g t in_call (call-Passes h (f ∷ fs) k g t p) u
    ∙ run-events h (f ∷ fs) inner g in_call (ret (h ∷ f ∷ fs) m caller ∷ rest) d u refl
        (within-Inside h t.stepping p)
    ∙ run-quiet (ret (h ∷ f ∷ fs) m caller) rest g at_return back
        (return-Passes h (f ∷ fs) m caller g at_return t.stepping d p refl refl) u
    ∙ ap (λ frames. run g rest (record t { cur_frame = frames; cur_line = caller })) (sym c)
