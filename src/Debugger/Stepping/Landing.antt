-- ===== src/Debugger/Stepping/Landing.antt =====
-- Where a step stops.
use python_vscode.Prelude.{
  ℕ, ◌≡◌, refl, ◌∙◌, ap, Bool, true, false, Option, none, List, [], ◌∷◌, ◌++◌, arith, inl, inr,
  append_assoc, Bool-cases, if◌then◌else◌,
}
use python_vscode.Debugger.Stepping.{
  Frame, Stack, Globals, Thread, Effect, quiet, reported_load, block, Event, call, line, ret,
  dispatch, handle_call, handle_line, handle_return, should_block_on_frame, stepping_over,
  stepping_out, stepping_into, stepping_none, step_finished, on_line,
}
use python_vscode.Debugger.Stepping.Calls.{
  Body, finished, at_line, calls, events, Run, went_on, stopped, run, run-quiet, run-says, run-call,
  last_line, after_effect, after_effect-says,
}

-- Does the frame itself run a line other than the one where the thread stopped?
abbrev pub leaves_line : Option ℕ → Body → Bool
leaves_line stop finished = false
leaves_line stop (at_line n b) = if on_line stop n then leaves_line stop b else true
leaves_line stop (calls f k inner m caller b) = leaves_line stop b

run-stop :
    (e : Event) (es : List Event) (g : Globals) (t : Thread) (effect : Effect)
    → dispatch e g t ≡ effect
    → effect.thread.is_blocked ≡ true
    → run g (e ∷ es) t ≡ stopped effect.sent
unfolding run
run-stop e es g t effect q u = ap (after_effect g es) q ∙ go effect.thread.is_blocked u
  where
    go :
        (b : Bool)
        → b ≡ true
        → elim b as (λ _. Run) [ true ↦ stopped effect.sent | false ↦ run g es effect.thread ]
          ≡ stopped effect.sent
    go true h = refl
    go false h = cc

line_stays :
    (stack : Stack) (n : ℕ) (g : Globals) (t : Thread)
    → g.detached ≡ false
    → t.stepping ≡ stepping_over
    → on_line t.stopped_on_line n ≡ true
    → dispatch (line stack n none) g t ≡ quiet g (record t { cur_line = n })
unfolding dispatch handle_line
line_stays stack n g t d s h = ground arith

line_lands :
    (stack : Stack) (n : ℕ) (g : Globals) (t : Thread)
    → g.detached ≡ false
    → t.stepping ≡ stepping_over
    → on_line t.stopped_on_line n ≡ false
    → should_block_on_frame stack ≡ true
    → dispatch (line stack n none) g t
      ≡ block g
          (record t { cur_line = n; stepping = stepping_none })
          (step_finished t.id ∷ [])
          true
          false
unfolding dispatch handle_line
line_lands stack n g t d s h b = ground arith

-- While a thread steps over in a frame where it may block, and no breakpoint is hit, it stops at the
-- first line of that frame other than the line where it stopped last, with one report that the step
-- is finished, and not at all if the frame runs no such line.
pub run-step_over :
    (f : Frame) (fs : Stack) (b : Body) (g : Globals) (t : Thread)
    → g.detached ≡ false
    → t.is_blocked ≡ false
    → t.cur_frame ≡ f ∷ fs
    → t.stepping ≡ stepping_over
    → should_block_on_frame (f ∷ fs) ≡ true
    → run g (events (f ∷ fs) b) t ≡ (
        if leaves_line t.stopped_on_line b
        then stopped (step_finished t.id ∷ [])
        else went_on (record t { cur_line = last_line t.cur_line b }))
unfolding events run
run-step_over f fs finished g t d u c s w = refl
run-step_over f fs (at_line n b) g t d u c s w = elim (Bool-cases (on_line t.stopped_on_line n)) [
  | inl same ↦
      run-quiet (line (f ∷ fs) n none) (events (f ∷ fs) b) g t (record t { cur_line = n })
        (line_stays (f ∷ fs) n g t d s same) u
      ∙ run-step_over f fs b g (record t { cur_line = n }) d u c s w
      ∙ rw same
  | inr other ↦
      run-stop (line (f ∷ fs) n none) (events (f ∷ fs) b) g t _
        (line_lands (f ∷ fs) n g t d s other w) refl
      ∙ rw other
]
run-step_over f fs (calls h k inner m caller b) g t d u c s w =
    run-call h f fs k m caller inner (events (f ∷ fs) b) g t d u c (ground arith)
    ∙ run-step_over f fs b g (record t { cur_line = caller }) d u c s w

line_passes_out :
    (stack : Stack) (n : ℕ) (g : Globals) (t : Thread)
    → t.stepping ≡ stepping_out
    → dispatch (line stack n none) g t ≡ quiet g (record t { cur_line = n })
unfolding dispatch handle_line
line_passes_out stack n g t s = ground arith

-- What a function does on its return while it is stepped out of, in the caller `c`.
return_lands :
    (f c : Frame) (cs : Stack) (m caller : ℕ) (g : Globals) (t : Thread)
    → g.detached ≡ false
    → t.cur_frame ≡ f ∷ c ∷ cs
    → t.stepping ≡ stepping_out
    → f.debuggable ≡ true
    → f.is_module ≡ false
    → dispatch (ret (f ∷ c ∷ cs) m caller) g t ≡ (
        let back : Thread = record t { cur_frame = c ∷ cs; cur_line = caller } in
        if should_block_on_frame (c ∷ cs)
        then block g (record back { stepping = stepping_none }) (step_finished t.id ∷ []) true false
        else quiet g back)
unfolding dispatch handle_return
return_lands f c cs m caller g t d e s u q = ground arith

run_after :
    (b : Bool) (g : Globals) (id : ℕ) (back : Thread)
    → back.is_blocked ≡ false
    → after_effect g [] (
        if b
        then block g (record back { stepping = stepping_none }) (step_finished id ∷ []) true false
        else quiet g back)
      ≡ (if b then stopped (step_finished id ∷ []) else went_on back)
unfolding run
run_after true g id back u = refl
run_after false g id back u = after_effect-says [] g [] back u

run-return :
    (f c : Frame) (cs : Stack) (b : Body) (m caller : ℕ) (g : Globals) (t : Thread)
    → g.detached ≡ false
    → t.is_blocked ≡ false
    → t.cur_frame ≡ f ∷ c ∷ cs
    → t.stepping ≡ stepping_out
    → f.debuggable ≡ true
    → f.is_module ≡ false
    → run g (events (f ∷ c ∷ cs) b ++ ret (f ∷ c ∷ cs) m caller ∷ []) t ≡ (
        if should_block_on_frame (c ∷ cs)
        then stopped (step_finished t.id ∷ [])
        else went_on (record t { cur_frame = c ∷ cs; cur_line = caller }))
unfolding events run
run-return f c cs finished m caller g t d u e s w q =
    ap (after_effect g []) (return_lands f c cs m caller g t d e s w q)
    ∙ run_after (should_block_on_frame (c ∷ cs)) g t.id
        (record t { cur_frame = c ∷ cs; cur_line = caller }) u
run-return f c cs (at_line n b) m caller g t d u e s w q =
    run-quiet (line (f ∷ c ∷ cs) n none) _ g t (record t { cur_line = n })
      (line_passes_out (f ∷ c ∷ cs) n g t s) u
    ∙ run-return f c cs b m caller g (record t { cur_line = n }) d u e s w q
run-return f c cs (calls h k inner o back b) m caller g t d u e s w q =
    ap (λ es. run g (call (h ∷ f ∷ c ∷ cs) k ∷ es) t)
      (append_assoc (events (h ∷ f ∷ c ∷ cs) inner)
        (ret (h ∷ f ∷ c ∷ cs) o back ∷ events (f ∷ c ∷ cs) b) (ret (f ∷ c ∷ cs) m caller ∷ []))
    ∙ run-call h f (c ∷ cs) k o back inner _ g t d u e (ground arith)
    ∙ run-return f c cs b m caller g (record t { cur_line = back }) d u e s w q

run-inside :
    (f : Frame) (fs : Stack) (b : Body) (g : Globals) (t : Thread)
    → g.detached ≡ false
    → t.is_blocked ≡ false
    → t.cur_frame ≡ f ∷ fs
    → t.stepping ≡ stepping_out
    → run g (events (f ∷ fs) b) t ≡ went_on (record t { cur_line = last_line t.cur_line b })
unfolding events run
run-inside f fs finished g t d u c s = refl
run-inside f fs (at_line n b) g t d u c s =
    run-quiet (line (f ∷ fs) n none) (events (f ∷ fs) b) g t (record t { cur_line = n })
      (line_passes_out (f ∷ fs) n g t s) u
    ∙ run-inside f fs b g (record t { cur_line = n }) d u c s
run-inside f fs (calls h k inner m caller b) g t d u c s =
    run-call h f fs k m caller inner (events (f ∷ fs) b) g t d u c (ground arith)
    ∙ run-inside f fs b g (record t { cur_line = caller }) d u c s

-- While a thread steps out of a function that is debugged, and no breakpoint is hit, it goes on through all
-- that runs in the function, in its mode, and does not stop; on the return it stops, with one report
-- that the step is finished, exactly if it may block in the caller, and goes on stepping out in the caller
-- otherwise.
pub run-step_out :
    (f c : Frame) (cs : Stack) (b : Body) (m caller : ℕ) (g : Globals) (t : Thread)
    → g.detached ≡ false
    → t.is_blocked ≡ false
    → t.cur_frame ≡ f ∷ c ∷ cs
    → t.stepping ≡ stepping_out
    → f.debuggable ≡ true
    → f.is_module ≡ false
    → (run g (events (f ∷ c ∷ cs) b) t ≡ went_on (record t { cur_line = last_line t.cur_line b }))
      × (run g (events (f ∷ c ∷ cs) b ++ ret (f ∷ c ∷ cs) m caller ∷ []) t ≡ (
          if should_block_on_frame (c ∷ cs)
          then stopped (step_finished t.id ∷ [])
          else went_on (record t { cur_frame = c ∷ cs; cur_line = caller })))
run-step_out f c cs b m caller g t d u e s w q =
    (run-inside f (c ∷ cs) b g t d u e s, run-return f c cs b m caller g t d u e s w q)

-- A step into a function that is debugged and may block does not stop on the call itself: the thread goes on
-- into the function, with no line where it stopped last. It stops at the first line that the function
-- runs, even if that is the line where the thread stopped last, with one report that the step is
-- finished.
pub run-step_into :
    (h f : Frame) (fs : Stack) (k n : ℕ) (rest : List Event) (g : Globals) (t : Thread)
    → g.detached ≡ false
    → t.is_blocked ≡ false
    → t.stepping ≡ stepping_into
    → h.debuggable ≡ true
    → should_block_on_frame (h ∷ f ∷ fs) ≡ true
    → let entered : Thread = record t {
      cur_frame = h ∷ f ∷ fs;
      cur_line = k;
      stepping = stepping_over;
      stopped_on_line = none;
    } in
      (run g (call (h ∷ f ∷ fs) k ∷ []) t ≡ went_on entered)
      × (run g (call (h ∷ f ∷ fs) k ∷ line (h ∷ f ∷ fs) n none ∷ rest) t
          ≡ stopped (step_finished t.id ∷ []))
unfolding dispatch handle_call run
run-step_into h f fs k n rest g t d u s q w = (
  run-says (call (h ∷ f ∷ fs) k) [] (reported_load h g) g t entered (ground arith) u,
  run-says (call (h ∷ f ∷ fs) k) (line (h ∷ f ∷ fs) n none ∷ rest) (reported_load h g) g t entered
        (ground arith) u
      ∙ run-stop (line (h ∷ f ∷ fs) n none) rest g entered _
          (line_lands (h ∷ f ∷ fs) n g entered d refl refl w) refl,
)
  where
    entered : Thread
    entered = record t {
      cur_frame = h ∷ f ∷ fs;
      cur_line = k;
      stepping = stepping_over;
      stopped_on_line = none;
    }
