-- ===== src/Store/Events/Schedules.antt =====
-- The methods of `MemoryEventRepository` that open registration and confirmation.
use rolebot_hse.Base.{
  String, Bool, true, false, ◌&&◌, ◌||◌, Option, none, some, [], ◌∷◌, ◌++◌, ◌==◌, ◌!=◌, string_eq,
  nat_eq, bool_eq, option_eq, mem, is_some, is_none, if◌then◌else◌,
}
use rolebot_hse.Errors.{Result, ok, err, Error}
use rolebot_hse.Domain.Enums.{EventStatus, status_eq}
use rolebot_hse.Domain.Event.{Datetime}
use rolebot_hse.Store.Events.State.{Rows, on_event, on_event_or_raise}

unfoldable pub set_status : Datetime → String → EventStatus → Rows → Rows × Bool
unfolding on_event
set_status now event_id status =
    on_event event_id (λ e. (record e { status = status; updated_at = now }, e.status != status))

unfoldable pub set_registration_open_at : Datetime → String → Option Datetime → Rows → Rows × Bool
unfolding on_event
set_registration_open_at now event_id opens_at = on_event event_id (λ e.
    if e.registration_open_at == opens_at then (e, false) else (
      record e {
        registration_open_at = opens_at;
        registration_open_notified_recipients = [];
        registration_open_notification_completed_at = none;
        updated_at = now;
      },
      true,
    ))

unfoldable pub mark_registration_open_notification_delivered :
    Datetime → String → String → Rows → Result Rows
unfolding on_event_or_raise
mark_registration_open_notification_delivered now event_id recipient =
    on_event_or_raise event_id (λ e.
      if mem recipient e.registration_open_notified_recipients then e else record e {
        registration_open_notified_recipients =
            e.registration_open_notified_recipients ++ recipient ∷ [];
        updated_at = now;
      })

unfoldable pub complete_registration_open_notification : String → Datetime → Rows → Result Rows
unfolding on_event_or_raise
complete_registration_open_notification event_id completed_at = on_event_or_raise event_id (λ e.
    if is_none e.registration_open_notification_completed_at
    then record e {
      registration_open_notification_completed_at = some completed_at;
      updated_at = completed_at;
    }
    else e)

unfoldable pub set_confirmation_schedule :
    Datetime → String → Option Datetime → Option Datetime → Rows → Result (Rows × Bool)
unfolding on_event
set_confirmation_schedule now event_id opens_at deadline rows =
    if is_none opens_at != is_none deadline
    then err Error.value_error
    else ok (
        on_event event_id
          (λ e.
            if e.confirmation_open_at == opens_at && e.confirmation_deadline == deadline
            then (e, false)
            else (
              record e {
                confirmation_open_at = opens_at;
                confirmation_deadline = deadline;
                updated_at = now;
              },
              true,
            ))
          rows)

unfoldable pub open_scheduled_confirmation :
    Datetime → String → Datetime → Datetime → Rows → Rows × Bool
unfolding on_event
open_scheduled_confirmation now event_id opens_at deadline = on_event event_id (λ e.
    if is_some e.archived_at
      || (e.status != EventStatus.created
          || (e.confirmation_open_at != some opens_at || e.confirmation_deadline != some deadline))
    then (e, false)
    else (
      record e {
        status = EventStatus.confirmation_open;
        confirmation_open_at = none;
        updated_at = now;
      },
      true,
    ))

unfoldable pub open_confirmation : Datetime → String → Datetime → Rows → Rows × Bool
unfolding on_event
open_confirmation now event_id deadline = on_event event_id (λ e. (
  record e {
    status = EventStatus.confirmation_open;
    confirmation_open_at = none;
    confirmation_deadline = some deadline;
    updated_at = now;
  },
  e.status != EventStatus.confirmation_open || e.confirmation_deadline != some deadline,
))
