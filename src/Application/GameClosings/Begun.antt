-- ===== src/Application/GameClosings/Begun.antt =====
-- A closing that has begun, and what telling one leader leaves of it.
use rolebot_hse.Base.{
  String, ◌≡◌, refl, sym, ap, ◌∙◌, ◌&&◌, some, not, ◌++◌, [], ◌∷◌, arith, mem, string_eq, option_eq,
  ◌==◌, if◌then◌else◌,
}
use rolebot_hse.Errors.{ok}
use rolebot_hse.Dict.{get, put}
use rolebot_hse.Domain.Enums.{platform_eq, operation_eq}
use rolebot_hse.Domain.Event.{Datetime, Event}
use rolebot_hse.Store.Events.State.{Identity, on_event_or_raise_found, get-put_self}
use rolebot_hse.Store.Events.Closing.{mark_scheduled_close_notification_delivered}
use rolebot_hse.Application.GameClosings.Actions.{
  Sending, Services, World, Action, with_rows, or_raise, continue, ◌>>=◌,
}
use rolebot_hse.Application.GameClosings.{call_send}

-- The store has the game, with this closing scheduled and begun.
pub record HasBegun (id op : String) (t : Datetime) (w : World) : Type 0 where
  pub event : Event
  pub stored : get id w.repository.rows ≡ some event
  pub own_id : event.event_id ≡ id
  pub at : event.scheduled_close_at ≡ some t
  pub begun_as : event.scheduled_close_operation_id ≡ some op

abbrev pub marked : Datetime → String → String → Event → Event
marked now op recipient e =
    if e.scheduled_close_operation_id == some op
      && not (mem recipient e.scheduled_close_notified_recipients)
    then record e {
      scheduled_close_notified_recipients = e.scheduled_close_notified_recipients ++ recipient ∷ [];
      updated_at = now;
    }
    else e

mark_ok :
    (now : Datetime) (id op recipient : String) (t : Datetime) (w : World)
    → HasBegun id op t w
    → (w' : World) × (or_raise (mark_scheduled_close_notification_delivered now id op recipient) w
        ≡ (ok tt, w'))
      × HasBegun id op t w'
unfolding mark_scheduled_close_notification_delivered
mark_ok now id op recipient t w h =
    let e' = marked now op recipient h.event in
    (
      with_rows w (put id e' w.repository.rows),
      rw
          (
            or_raise,
            on_event_or_raise_found id (marked now op recipient) w.repository.rows h.event h.stored,
          )
          refl,
      record {
        event = e';
        stored = get-put_self id e' w.repository.rows;
        own_id = ground (arith, h.own_id);
        at = ground (arith, h.at);
        begun_as = ground (arith, h.begun_as);
      },
    )

-- One leader who is told, and the rest of the loop.
pub send_and_mark :
    (sending : Sending) (now : Datetime) (id op recipient request_id : String) (t : Datetime)
    (services : Services) (leader : Identity) (rest : Action (Unit {0})) (w w' : World)
    → HasBegun id op t w
    → (call_send services leader request_id sending >>= λ _.
          or_raise (mark_scheduled_close_notification_delivered now id op recipient) >>= λ _. rest)
        w
      ≡ (ok tt, w')
    → (w₂ : World) × HasBegun id op t w₂ × (rest w₂ ≡ (ok tt, w'))
send_and_mark Sending.failed now id op recipient request_id t services leader rest w w' h r = cc
send_and_mark Sending.unreachable now id op recipient request_id t services leader rest w w' h r =
    let (w₂, write, h₂) = mark_ok now id op recipient t w h in
    (w₂, h₂, sym (ap (continue (λ _. rest)) write) ∙ r)
send_and_mark Sending.delivered now id op recipient request_id t services leader rest w w' h r =
    let w₁ : World = record w { sent = w.sent ++ (leader, request_id) ∷ [] } in
    let h₁ : HasBegun id op t w₁ = record {
      event = h.event;
      stored = h.stored;
      own_id = h.own_id;
      at = h.at;
      begun_as = h.begun_as;
    } in
    let (w₂, write, h₂) = mark_ok now id op recipient t w₁ h₁ in
    (w₂, h₂, sym (ap (continue (λ _. rest)) write) ∙ r)
