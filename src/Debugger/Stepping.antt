-- ===== src/Debugger/Stepping.antt =====
-- Stepping: the trace function of a thread, `Thread.trace_func`, and its handlers of call, line and
-- return events, as far as they decide where a thread stops. Breakpoints come in as the id that
-- `line_event` of Breakpoints/Events hits, and Django templates and a previous trace function are
-- left out (DJANGO_BREAKPOINTS empty, `prev_trace_func` None).
pub mod Calls
pub mod Landing
use python_vscode.Prelude.{
  ℕ, zero, suc, ◌+◌, Bool, true, false, not, ◌&&◌, ◌||◌, Option, none, some, List, [], ◌∷◌, ◌++◌,
  ◌==◌, if◌then◌else◌,
}
use python_vscode.Prelude.Int.{ℤ, pos, negsuc, suc_ℤ, pred_ℤ, eqb_ℤ, ltb_ℤ}

-- STEPPING_OUT counts down from -1, and STEPPING_OVER up from 5.
abbrev pub stepping_out : ℤ
stepping_out = negsuc 0

abbrev pub stepping_none : ℤ
stepping_none = pos 0

abbrev pub stepping_break : ℤ
stepping_break = pos 1

abbrev pub stepping_launch_break : ℤ
stepping_launch_break = pos 2

abbrev pub stepping_attach_break : ℤ
stepping_attach_break = pos 3

abbrev pub stepping_into : ℤ
stepping_into = pos 4

abbrev pub stepping_over : ℤ
stepping_over = pos 5

-- What the handlers ask of a frame's code: `should_debug_code`, membership in DEBUG_ENTRYPOINTS,
-- `is_same_py_file` with a file of DONT_DEBUG, the name `<module>`, and a file other than `<string>` and
-- `<stdin>`.
pub record Frame : Type 0 where
  pub debuggable : Bool
  pub entrypoint : Bool
  pub debugger_file : Bool
  pub is_module : Bool
  pub is_file : Bool

-- A frame and the frames below it, `frame.f_back` and so on.
abbrev pub Stack : Type 0
Stack = List Frame

-- The walk down the stack of `should_block_on_frame`.
unfoldable pub no_debugger_below : Stack → Bool
no_debugger_below [] = true
no_debugger_below (f ∷ fs) =
    if f.entrypoint then true else if f.debugger_file then false else no_debugger_below fs

unfoldable pub should_block_on_frame : Stack → Bool
unfolding no_debugger_below
should_block_on_frame [] = false
should_block_on_frame (f ∷ fs) = if f.debuggable then no_debugger_below (f ∷ fs) else false

pub data Message : Type 0 where
  step_finished process_loaded async_break_sent : ℕ → Message
  breakpoint_hit : ℕ → ℕ → Message
  module_load : Message

-- SEND_BREAK_COMPLETE: False, True or the id of a thread.
pub data SendBreak : Type 0 where
  off any_thread : SendBreak
  only : ℕ → SendBreak

pub record Globals : Type 0 where
  pub detached : Bool
  pub modules_loaded : Bool
  pub attach_sent_break : Bool
  pub send_break_complete : SendBreak

pub record Thread : Type 0 where
  pub id : ℕ
  pub cur_frame : Stack
  pub cur_line : ℕ
  pub stepping : ℤ
  pub stopped_on_line : Option ℕ
  pub is_blocked : Bool
  pub detach : Bool
  pub reported_process_loaded : Bool
  pub is_sending : Bool

-- What a handler leaves: the globals, its thread, what it sent, and whether it marked all other
-- threads for a break.
pub record Effect : Type 0 where
  pub globals : Globals
  pub thread : Thread
  pub sent : List Message
  pub marks : Bool

abbrev pub quiet : Globals → Thread → Effect
quiet g t = record { globals = g; thread = t; sent = []; marks = false }

-- `block(f, keep)`: the thread waits, and `f` has sent `sent`.
abbrev pub block : Globals → Thread → List Message → Bool → Bool → Effect
block g t sent marks keep = record {
  globals = g;
  thread = record t {
    is_blocked = true;
    stopped_on_line = if keep then t.stopped_on_line else some t.cur_line;
  };
  sent = sent;
  marks = marks;
}

abbrev pub is_step : ℤ → Bool
is_step s = eqb_ℤ s stepping_over || eqb_ℤ s stepping_into

abbrev pub on_line : Option ℕ → ℕ → Bool
on_line none n = false
on_line (some m) n = m == n

-- What `block_cond` sends, and whether it marks the other threads, when it blocks now.
abbrev loaded_report : Globals → Thread → List Message
loaded_report g t = if g.detached then [] else process_loaded t.id ∷ []

unfoldable pub block_maybe_attach : Globals → Thread → Effect
block_maybe_attach g t =
    let attaching = eqb_ℤ t.stepping stepping_attach_break in
    let will_block_now = not (attaching && g.attach_sent_break) in
    let g' = if attaching then record g { attach_sent_break = true } else g in
    let t' = record t { stepping = stepping_none } in
    if not will_block_now
    then block g' t' [] false false
    else if is_step t.stepping
    then block g' t' (step_finished t.id ∷ []) true false
    else block g'
        (record t' {
          reported_process_loaded =
              if attaching && not g.detached then true else t.reported_process_loaded;
        })
        (loaded_report g t) false false

-- The code of a module's file, which starts, is reported; its number, its name and the breakpoints that it
-- binds are those of `load_module` of Breakpoints/Events.
abbrev pub reported_load : Frame → Globals → List Message
reported_load f g = if f.is_module && f.is_file && not g.detached then module_load ∷ [] else []

abbrev pub says : List Message → Globals → Thread → Effect
says sent g t = record { globals = g; thread = t; sent = sent; marks = false }

unfoldable pub handle_call : Stack → ℕ → Globals → Thread → Effect
handle_call [] lineno g t = quiet g t
handle_call (f ∷ fs) lineno g t =
    let t' = record t { cur_frame = f ∷ fs; cur_line = lineno } in
    says (reported_load f g) g (
      if not f.debuggable
      then t'
      else if eqb_ℤ t.stepping stepping_into
      then record t' { stepping = stepping_over; stopped_on_line = none }
      else if not (ltb_ℤ t.stepping stepping_over)
      then record t' { stepping = suc_ℤ t.stepping }
      else if not (ltb_ℤ stepping_out t.stepping)
      then record t' { stepping = pred_ℤ t.stepping }
      else t')

-- `step_complete` and `handle_breakpoints` of `handle_line`.
unfoldable pub line_decision : Stack → ℕ → Globals → Thread → Bool × Bool
line_decision stack lineno g t =
    if is_step t.stepping && not (on_line t.stopped_on_line lineno)
    then (should_block_on_frame stack, true)
    else if eqb_ℤ t.stepping stepping_launch_break
    then (if not g.modules_loaded || not (should_block_on_frame stack)
        then (false, false)
        else (true, true))
    else if eqb_ℤ t.stepping stepping_attach_break
    then (true, true)
    else (false, true)

-- The end of `handle_line`: the breakpoint that was hit, if any, and the step that is complete.
abbrev stop : Globals → Thread → Option ℕ → Bool → Effect
stop g t (some id) complete = block g t (breakpoint_hit id t.id ∷ []) true complete
stop g t none true = block_maybe_attach g t
stop g t none false = quiet g t

unfoldable pub handle_line : Stack → ℕ → Option ℕ → Globals → Thread → Effect
unfolding line_decision block_maybe_attach
handle_line stack lineno hit g t =
    let t' = record t { cur_line = lineno } in
    let (complete, breakpoints) = line_decision stack lineno g t in
    if g.detached then quiet g t' else stop g t' (if breakpoints then hit else none) complete

abbrev is_user_step : ℤ → Bool
is_user_step s = eqb_ℤ s stepping_out || (eqb_ℤ s stepping_into || eqb_ℤ s stepping_over)

abbrev finish_step : Globals → Thread → Effect
finish_step g t =
    block g (record t { stepping = stepping_none }) (step_finished t.id ∷ []) true false

abbrev at_line : Thread → ℕ → Thread
at_line t n = record t { cur_line = n }

-- The step that ends as the frame returns to the frames `callers`. A module's frame is put back for
-- the stop, one line further, and taken off again when the thread goes on.
return_stop : Frame → Stack → Stack → ℕ → Globals → Thread → Effect
return_stop f stack [] lineno g t =
    if should_block_on_frame stack then finish_step g (at_line t (lineno + 1)) else quiet g t
return_stop f stack (c ∷ cs) lineno g t =
    if f.is_module
    then (if should_block_on_frame stack then finish_step g (at_line t (lineno + 1)) else quiet g t)
    else if should_block_on_frame (c ∷ cs)
    then finish_step g t
    else quiet g t

abbrev pub tail_of : Stack → Stack
tail_of [] = []
tail_of (f ∷ fs) = fs

-- `caller_line` is `f_lineno` of the caller.
unfoldable pub handle_return : Stack → ℕ → ℕ → Globals → Thread → Effect
unfolding return_stop
handle_return [] lineno caller_line g t = quiet g t
handle_return (f ∷ fs) lineno caller_line g t =
    let t' = record t { cur_frame = tail_of t.cur_frame; cur_line = caller_line } in
    if g.detached
    then quiet g t'
    else if not f.debuggable
    then quiet g t'
    else if ltb_ℤ stepping_over t.stepping
    then quiet g (record t' { stepping = pred_ℤ t.stepping })
    else if ltb_ℤ t.stepping stepping_out
    then quiet g (record t' { stepping = suc_ℤ t.stepping })
    else if is_user_step t.stepping
    then return_stop f (f ∷ fs) t'.cur_frame lineno g t'
    else quiet g t'

-- A trace event, with the running frame and those below it and its line; a line event comes with
-- the id of the breakpoint that is hit there, and a return with the line of the caller.
pub data Event : Type 0 where
  call : Stack → ℕ → Event
  line : Stack → ℕ → Option ℕ → Event
  ret : Stack → ℕ → ℕ → Event

unfoldable pub dispatch : Event → Globals → Thread → Effect
dispatch (call stack n) g t = handle_call stack n g t
dispatch (line stack n hit) g t = handle_line stack n hit g t
dispatch (ret stack n caller) g t = handle_return stack n caller g t

-- `async_break`, with the test and the reset of SEND_BREAK_COMPLETE.
abbrev is_for : ℕ → SendBreak → Bool
is_for id off = false
is_for id any_thread = true
is_for id (only j) = id == j

unfoldable pub async_break : Globals → Thread → Effect
async_break g t =
    let t' = record t { stepping = stepping_none } in
    if is_for t.id g.send_break_complete
    then block (record g { send_break_complete = off }) t' (async_break_sent t.id ∷ []) false false
    else block g t' [] false false

abbrev pub first_push : Stack → ℕ → Stack → Thread → Thread
first_push stack n [] t = record t { cur_frame = stack; cur_line = n }
first_push stack n (f ∷ fs) t = t

abbrev pub is_debuggable : Stack → Bool
is_debuggable [] = false
is_debuggable (f ∷ fs) = f.debuggable

-- What `trace_func` does first: nothing while the thread sends, the first push, and the break that
-- another thread or the client asked for. The flag says whether the event is dispatched next.
unfoldable pub trace_entry : Stack → ℕ → Globals → Thread → Bool × Effect
unfolding async_break
trace_entry stack n g t =
    let t' = first_push stack n t.cur_frame t in
    if t.is_sending
    then (false, quiet g t)
    else if eqb_ℤ t.stepping stepping_break && is_debuggable stack
    then (if t.detach then (false, quiet g t') else (true, async_break g t'))
    else (true, quiet g t')
