-- ===== src/Application/RegistrationOpenings/Marks.antt =====
-- The marks of a round of notifications: whom the event has as told after them.
use rolebot_hse.Base.{
  ◌≡◌, refl, ap, ◌∙◌, inl, inr, String, Bool, true, false, Bool-cases, ◌||◌, some, List, [], ◌∷◌,
  ◌++◌, mem, arith, string_eq, if◌then◌else◌,
}
use rolebot_hse.Errors.{Result, ok}
use rolebot_hse.Dict.{get, put}
use rolebot_hse.Domain.Event.{Datetime, Event}
use rolebot_hse.Store.Events.State.{on_event_or_raise_found, get-put_self}
use rolebot_hse.Store.Events.Schedules.{mark_registration_open_notification_delivered}
use rolebot_hse.Application.Effects.{continue}
use rolebot_hse.Application.Mutations.{EventRows}
use rolebot_hse.Application.RegistrationOpenings.{World, Services, changed, change, mark_each}

pub mem-append : (k : String) (xs ys : List String) → mem k (xs ++ ys) ≡ (mem k xs || mem k ys)
mem-append k [] ys = refl
mem-append k (x ∷ xs) ys = ground (arith, mem-append k xs ys)

-- The event after `mark_registration_open_notification_delivered`.
abbrev pub told : Datetime → String → Event → Event
told now recipient e =
    if mem recipient e.registration_open_notified_recipients then e else record e {
      registration_open_notified_recipients =
          e.registration_open_notified_recipients ++ recipient ∷ [];
      updated_at = now;
    }

mem-told :
    (now : Datetime) (recipient k : String) (e : Event)
    → mem k (told now recipient e).registration_open_notified_recipients
      ≡ (string_eq.beq k recipient || mem k e.registration_open_notified_recipients)
mem-told now recipient k e =
    elim (Bool-cases (mem recipient e.registration_open_notified_recipients)) [
      | inl old ↦ rw old (ground (arith, string_eq.beq_iff k recipient))
      | inr new ↦
          rw new
            (ground (arith, mem-append k e.registration_open_notified_recipients (recipient ∷ [])))
    ]

completed-told :
    (now : Datetime) (recipient : String) (e : Event)
    → (told now recipient e).registration_open_notification_completed_at
      ≡ e.registration_open_notification_completed_at
completed-told now recipient e = ground arith

-- The marks of a round: an event with these marks besides its own, and nothing else of interest.
pub record Marks (id : String) (rs : List String) (e : Event) (w : World)
    (r : Result (Unit {0}) × World) : Type 0 where
  pub event : Event
  pub rows : EventRows
  pub run : r ≡ (ok tt, record w { rows = rows })
  pub stored : get id rows ≡ some event
  pub keys :
      (k : String)
      → mem k event.registration_open_notified_recipients
        ≡ (mem k rs || mem k e.registration_open_notified_recipients)
  pub completed :
      event.registration_open_notification_completed_at
      ≡ e.registration_open_notification_completed_at

either_comm :
    (x a t e : Bool) → t ≡ (x || e) → (a || t) ≡ ((elim x [ true ↦ true | false ↦ a ]) || e)
either_comm x a t e h = ground (arith, h)

module _ (services : Services) (now : Datetime) where
  abbrev marked_world : String → String → Event → World → World
  marked_world id r e w = record w { rows = put id (told now r e) w.rows }

  change_mark :
      (id r : String) (e : Event) (w : World)
      → get id w.rows ≡ some e
      → change (mark_registration_open_notification_delivered now id r) w
        ≡ (ok tt, marked_world id r e w)
  unfolding mark_registration_open_notification_delivered
  change_mark id r e w g = ap (changed w) (on_event_or_raise_found id (told now r) w.rows e g)

  pub mark_each-Marks :
      (id : String) (rs : List String) (e : Event) (w : World)
      → get id w.rows ≡ some e
      → Marks id rs e w (mark_each services now id rs w)
  unfolding mark_each
  mark_each-Marks id [] e w g = record {
    event = e;
    rows = w.rows;
    run = refl;
    stored = g;
    keys = λ k. refl;
    completed = refl;
  }
  mark_each-Marks id (r ∷ rs) e w g =
      let m =
        mark_each-Marks id rs (told now r e) (marked_world id r e w)
          (get-put_self id (told now r e) w.rows) in
      record {
        event = m.event;
        rows = m.rows;
        run = ap (continue (λ _. mark_each services now id rs)) (change_mark id r e w g) ∙ m.run;
        stored = m.stored;
        keys = λ k.
            m.keys k
            ∙ either_comm (string_eq.beq k r) (mem k rs)
                (mem k (told now r e).registration_open_notified_recipients)
                (mem k e.registration_open_notified_recipients) (mem-told now r k e);
        completed = m.completed ∙ completed-told now r e;
      }
