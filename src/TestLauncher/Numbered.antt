-- ===== src/TestLauncher/Numbered.antt =====
-- The events of a run.
use python_vscode.Prelude.{
  ℕ, suc, ◌≡◌, refl, ◌∙◌, Text, false, Option, none, some, List, [], ◌∷◌, ◌++◌, append_assoc, codes,
}
use python_vscode.TestLauncher.{
  Event, started, result, output, finished, Channel, new_channel, send_event, write_errors, Trace,
  Report, handle, handle_all, send_result, run, start_test, add_success, add_unexpected_success,
  add_skip, write, add_error, add_failure, add_expected_failure,
}

abbrev pub errors : List Text → List Event → List Event
errors [] events = events
errors (t ∷ texts) events = output false t ∷ errors texts events

abbrev pub failed_with : Text → Text → Trace → List Event → List Event
failed_with outcome test t events =
    errors t.printed (result outcome (some (t.formatted, t.message)) test ∷ events)

-- The events that a report stands for, before those of later ones
abbrev pub event_of : Report → List Event → List Event
event_of (start_test test) events = started test ∷ events
event_of (add_success test) events = result (codes "passed") none test ∷ events
event_of (add_unexpected_success test) events = result (codes "passed") none test ∷ events
event_of (add_skip test) events = result (codes "skipped") none test ∷ events
event_of (write is_stdout text) events = output is_stdout text ∷ events
event_of (add_error test t) events = failed_with (codes "error") test t events
event_of (add_failure test t) events = failed_with (codes "failed") test t events
event_of (add_expected_failure test t) events = failed_with (codes "failed") test t events

abbrev pub events_of : List Report → List Event
events_of [] = finished ∷ []
events_of (r ∷ reports) = event_of r (events_of reports)

-- The events with the numbers from `n` on
abbrev pub numbered : ℕ → List Event → List (ℕ × Event)
numbered n [] = []
numbered n (e ∷ events) = (n, e) ∷ numbered (suc n) events

-- What will have been sent once these events are
abbrev pub to_send : Channel → List Event → List (ℕ × Event)
to_send c events = c.sent ++ numbered c.seq events

send_event-to_send :
    (e : Event) (events : List Event) (c : Channel)
    → to_send (send_event e c) events ≡ to_send c (e ∷ events)
unfolding send_event
send_event-to_send e events c = append_assoc c.sent ((c.seq, e) ∷ []) (numbered (suc c.seq) events)

write_errors-to_send :
    (texts : List Text) (events : List Event) (c : Channel)
    → to_send (write_errors texts c) events ≡ to_send c (errors texts events)
unfolding write_errors
write_errors-to_send [] events c = refl
write_errors-to_send (t ∷ texts) events c =
    write_errors-to_send texts events (send_event (output false t) c)
    ∙ send_event-to_send (output false t) (errors texts events) c

-- What a report leaves is a channel on which less is to be sent.
abbrev pub Leaves : Report → List Event → Channel → Option Channel → Type 0
Leaves r events c o =
    (d : Channel) × ((o ≡ some d) × (to_send d events ≡ to_send c (event_of r events)))

send_result-Leaves :
    (outcome test : Text) (t : Trace) (events : List Event) (c : Channel)
    → (d : Channel) × ((send_result test outcome (some t) (some c) ≡ some d)
        × (to_send d events ≡ to_send c (failed_with outcome test t events)))
unfolding send_result
send_result-Leaves outcome test t events c =
    let e : Event = result outcome (some (t.formatted, t.message)) test in
    (
      send_event e (write_errors t.printed c),
      (
        refl,
        send_event-to_send e events (write_errors t.printed c)
            ∙ write_errors-to_send t.printed (e ∷ events) c,
      ),
    )

handle-Leaves :
    (r : Report) (events : List Event) (c : Channel) → Leaves r events c (handle r (some c))
unfolding handle send_result
handle-Leaves (start_test test) events c = (_, (refl, send_event-to_send _ events c))
handle-Leaves (add_success test) events c = (_, (refl, send_event-to_send _ events c))
handle-Leaves (add_unexpected_success test) events c = (_, (refl, send_event-to_send _ events c))
handle-Leaves (add_skip test) events c = (_, (refl, send_event-to_send _ events c))
handle-Leaves (write is_stdout text) events c = (_, (refl, send_event-to_send _ events c))
handle-Leaves (add_error test t) events c = send_result-Leaves (codes "error") test t events c
handle-Leaves (add_failure test t) events c = send_result-Leaves (codes "failed") test t events c
handle-Leaves (add_expected_failure test t) events c =
    send_result-Leaves (codes "failed") test t events c

-- What was sent on a channel
abbrev pub sent_by : Option Channel → List (ℕ × Event)
sent_by none = []
sent_by (some c) = c.sent

run-numbered :
    (reports : List Report) (c : Channel)
    → sent_by (run reports (some c)) ≡ to_send c (events_of reports)
unfolding run handle_all send_event
run-numbered [] c = refl
run-numbered (r ∷ reports) c =
    let (d, (e, t)) = handle-Leaves r (events_of reports) c in rw e (run-numbered reports d ∙ t)

-- A run sends an event for each thing that unittest reports and each text that is written, in that order, for an
-- error or a failure after the texts of its printed traceback, and then one that it is done; their
-- numbers are 0, 1, 2 and so on.
pub run-new_channel :
    (reports : List Report)
    → sent_by (run reports (some new_channel)) ≡ numbered 0 (events_of reports)
run-new_channel reports = run-numbered reports new_channel
