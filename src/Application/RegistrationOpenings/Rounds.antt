-- ===== src/Application/RegistrationOpenings/Rounds.antt =====
-- What one round over a game does: who is still to be told after it, and when the game is done.
use rolebot_hse.Base.{
  ◌≡◌, refl, ap, ◌∙◌, inl, inr, ℕ, String, Bool, map, Bool-cases, ◌||◌, Option, none, some, List,
  [], ◌∷◌, ◌++◌, length, keep_if, all_of, mem, is_none, or_else, arith, string_eq, if◌then◌else◌,
}
use rolebot_hse.Errors.{Result, ok}
use rolebot_hse.Dict.{get, put}
use rolebot_hse.Domain.Event.{Datetime, Event}
use rolebot_hse.Domain.User.{Identity}
use rolebot_hse.Store.Events.Listing.{to_lifecycle}
use rolebot_hse.Store.Events.State.{on_event_or_raise_found, get-put_self}
use rolebot_hse.Store.Events.Schedules.{complete_registration_open_notification}
use rolebot_hse.Application.Effects.{◌>>◌, pure, continue}
use rolebot_hse.Application.Support.{Sending}
use rolebot_hse.Application.Notifications.{Letter}
use rolebot_hse.Application.RegistrationOpenings.{
  World, Services, recipient_key, reached_in, is_pending, changed, change, mark_each, conclude,
  notify_event,
}
use rolebot_hse.Application.RegistrationOpenings.Marks.{mem-append, Marks, mark_each-Marks}
use rolebot_hse.Application.RegistrationOpenings.Calls.{
  onto, addressee, accepted, IsAnsweredBy, unmarked, are_marked, send_each-Sent,
}

module _ (services : Services) (now : Datetime) where
  -- Who was told at the end of a round, and whether that is everybody.
  abbrev all_told : List Identity → Event → Bool
  all_told identities e =
      all_of (λ i. mem (recipient_key i) e.registration_open_notified_recipients) identities

  all_told-keys :
      (identities : List Identity) (rs : List String) (e e' : Event)
      → ((k : String)
          → mem k e'.registration_open_notified_recipients
            ≡ (mem k rs || mem k e.registration_open_notified_recipients))
      → all_of
          (λ i. mem (recipient_key i) (rs ++ e.registration_open_notified_recipients))
          identities
        ≡ all_told identities e'
  all_told-keys [] rs e e' h = refl
  all_told-keys (i ∷ is) rs e e' h = ground (
    arith,
    h (recipient_key i),
    mem-append (recipient_key i) rs e.registration_open_notified_recipients,
    all_told-keys is rs e e' h,
  )

  pending-keys :
      (identities : List Identity) (rs : List String) (e e' : Event)
      → ((k : String)
          → mem k e'.registration_open_notified_recipients
            ≡ (mem k rs || mem k e.registration_open_notified_recipients))
      → keep_if (is_pending e'.registration_open_notified_recipients) identities
        ≡ keep_if
            (is_pending rs)
            (keep_if (is_pending e.registration_open_notified_recipients) identities)
  pending-keys [] rs e e' h = refl
  pending-keys (i ∷ is) rs e e' h = ground (arith, h (recipient_key i), pending-keys is rs e e' h)

  -- The event after `complete_registration_open_notification`.
  abbrev completed_event : Datetime → Event → Event
  completed_event opened_by e =
      if is_none e.registration_open_notification_completed_at
      then record e {
        registration_open_notification_completed_at = some opened_by;
        updated_at = opened_by;
      }
      else e

  completed_event-marks :
      (opened_by : Datetime) (e : Event)
      → (completed_event opened_by e).registration_open_notified_recipients
        ≡ e.registration_open_notified_recipients
  completed_event-marks opened_by e = ground arith

  completed_event-moment :
      (opened_by : Datetime) (e : Event)
      → (completed_event opened_by e).registration_open_notification_completed_at
        ≡ some (or_else e.registration_open_notification_completed_at opened_by)
  completed_event-moment opened_by e = by_moment e.registration_open_notification_completed_at refl
    where
      by_moment :
          (o : Option Datetime)
          → e.registration_open_notification_completed_at ≡ o
          → (completed_event opened_by e).registration_open_notification_completed_at
            ≡ some (or_else o opened_by)
      by_moment none h = ground (arith, h)
      by_moment (some t) h = ground (arith, h)

  -- What the end of a round leaves, after those in `reached` were told.
  record Concluded (identities : List Identity) (opened_by : Datetime) (e : Event)
      (reached : List String) (w : World) (r : Result (ℕ × ℕ) × World) : Type 0 where
    event : Event
    world : World
    run : r ≡ (ok ((if all_told identities event then 1 else 0), length reached), world)
    stored : get e.event_id world.rows ≡ some event
    attempts : world.attempts ≡ w.attempts
    pending :
        keep_if (is_pending event.registration_open_notified_recipients) identities
        ≡ keep_if
            (is_pending reached)
            (keep_if (is_pending e.registration_open_notified_recipients) identities)
    completed : event.registration_open_notification_completed_at ≡ (
        if all_told identities event
        then some (or_else e.registration_open_notification_completed_at opened_by)
        else e.registration_open_notification_completed_at)

  -- A round over a game `e`, by what the transport was asked and answered.
  pub record Round (identities : List Identity) (opened_by : Datetime) (e : Event) (w : World)
      (r : Result (ℕ × ℕ) × World) : Type 0 where
    pub calls : List (Letter × Sending)
    pub event : Event
    pub world : World
    pub asked : map addressee calls ≡ unmarked e.registration_open_notified_recipients identities
    pub answered : IsAnsweredBy services.transport w.attempts calls
    pub attempts : world.attempts ≡ onto calls w.attempts
    pub stored : get e.event_id world.rows ≡ some event
    pub pending :
        unmarked event.registration_open_notified_recipients identities
        ≡ unmarked (accepted calls) (unmarked e.registration_open_notified_recipients identities)
    pub completed : event.registration_open_notification_completed_at ≡ (
        if are_marked identities event.registration_open_notified_recipients
        then some (or_else e.registration_open_notification_completed_at opened_by)
        else e.registration_open_notification_completed_at)
    pub run : r ≡ (
      ok (
        (if are_marked identities event.registration_open_notified_recipients then 1 else 0),
        length (accepted calls),
      ),
      world,
    )

  change_complete :
      (opened_by : Datetime) (id : String) (e : Event) (w : World)
      → get id w.rows ≡ some e
      → change (complete_registration_open_notification id opened_by) w
        ≡ (ok tt, record w { rows = put id (completed_event opened_by e) w.rows })
  unfolding complete_registration_open_notification
  change_complete opened_by id e w g =
      ap (changed w) (on_event_or_raise_found id (completed_event opened_by) w.rows e g)

  all_told-marks :
      (identities : List Identity) (e e' : Event)
      → e'.registration_open_notified_recipients ≡ e.registration_open_notified_recipients
      → all_told identities e' ≡ all_told identities e
  all_told-marks identities e e' h =
      ap (λ keys. all_of (λ i. mem (recipient_key i) keys) identities) h

  conclude-Concluded :
      (identities : List Identity) (opened_by : Datetime) (e : Event) (reached : List String)
      (w : World)
      → (m : Marks e.event_id reached e w (mark_each services now e.event_id reached w))
      → Concluded identities opened_by e reached w (
          conclude services now
            (to_lifecycle e)
            identities
            opened_by
            reached
            (record w { rows = m.rows }))
  conclude-Concluded identities opened_by e reached w m =
      elim (Bool-cases (all_told identities m.event)) [
        | inl all ↦
            let same = completed_event-marks opened_by m.event in
            let still =
              all_told-marks identities m.event (completed_event opened_by m.event) same ∙ all in
            record {
              event = completed_event opened_by m.event;
              world = record w { rows = put e.event_id (completed_event opened_by m.event) m.rows };
              run =
                  rw (all_told-keys identities reached e m.event m.keys ∙ all, still)
                    (ap (continue (λ _. pure (1, length reached))) (
                      change_complete opened_by e.event_id m.event (record w { rows = m.rows })
                        m.stored));
              attempts = refl;
              stored = get-put_self e.event_id (completed_event opened_by m.event) m.rows;
              pending =
                  ap (λ keys. keep_if (is_pending keys) identities) same
                  ∙ pending-keys identities reached e m.event m.keys;
              completed = rw still (
                  completed_event-moment opened_by m.event
                  ∙ ap (λ t. some (or_else t opened_by)) m.completed);
            }
        | inr some_left ↦ record {
          event = m.event;
          world = record w { rows = m.rows };
          run = rw (all_told-keys identities reached e m.event m.keys ∙ some_left, some_left) refl;
          attempts = refl;
          stored = m.stored;
          pending = pending-keys identities reached e m.event m.keys;
          completed = rw some_left m.completed;
        }
      ]

  -- A round over a stored game `e`, whatever the transport does, returns without an error. It calls
  -- the transport once for each operator who is not among the marks of the game, in their order. Those
  -- without a mark after it are those without one before, less those whose message the transport
  -- accepted. The game is then done, since its first such moment, exactly if every operator has a
  -- mark; the first number returned is 1 just in that case, and the second is how many messages were
  -- accepted.
  pub notify_event-Round :
      (identities : List Identity) (opened_by : Datetime) (e : Event) (w : World)
      → get e.event_id w.rows ≡ some e
      → Round identities opened_by e w
          (notify_event services now identities opened_by (to_lifecycle e) w)
  unfolding notify_event recipient_key
  notify_event-Round identities opened_by e w g =
      let sent =
        send_each-Sent services (to_lifecycle e)
          (keep_if (is_pending e.registration_open_notified_recipients) identities) w in
      let w' : World = record w { attempts = onto sent.calls w.attempts } in
      let m = mark_each-Marks services now e.event_id (reached_in sent.results) e w' g in
      let end = conclude-Concluded identities opened_by e (reached_in sent.results) w' m in
      record {
        calls = sent.calls;
        event = end.event;
        world = end.world;
        asked = sent.asked;
        answered = sent.answered;
        attempts = end.attempts;
        stored = end.stored;
        pending =
            end.pending
            ∙ ap
                (λ ks.
                  keep_if (is_pending ks)
                    (keep_if (is_pending e.registration_open_notified_recipients) identities))
                sent.reached;
        completed = end.completed;
        run =
            ap
              (continue (λ rs.
                mark_each services now e.event_id (reached_in rs)
                >> conclude services now (to_lifecycle e) identities opened_by (reached_in rs)))
              sent.run
            ∙ ap
                (continue (λ _.
                  conclude services now (to_lifecycle e) identities opened_by
                    (reached_in sent.results)))
                m.run
            ∙ end.run
            ∙ ap
                (λ ks.
                  (ok ((if all_told identities end.event then 1 else 0), length ks), end.world))
                sent.reached;
      }
