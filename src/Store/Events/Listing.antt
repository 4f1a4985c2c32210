-- ===== src/Store/Events/Listing.antt =====
-- The methods of `MemoryEventRepository` that list events: those with something due, and pages.
use rolebot_hse.Base.{
  ℕ, String, Bool, false, ◌&&◌, ◌||◌, Option, none, some, List, map, ◌==◌, ◌!=◌, string_eq, nat_eq,
  bool_eq, option_eq, pair_eq, take, keep_if, is_some, is_none, or_else, leb,
}
use rolebot_hse.Base.Order.{nat_order, text_order, pair_order}
use rolebot_hse.Base.Sort.{sort_by}
use rolebot_hse.Dict.{values}
use rolebot_hse.Domain.Enums.{EventStatus, status_eq}
use rolebot_hse.Domain.Event.{Datetime, Event, ScheduledLifecycleEvent}
use rolebot_hse.Store.Events.State.{Rows}

-- `moment is not None and moment <= by`
abbrev pub is_due : Option Datetime → Datetime → Bool
is_due none by = false
is_due (some t) by = leb t by

unfoldable pub registration_notification_due : Datetime → Event → Bool
registration_notification_due by e =
    is_due e.registration_open_at by
    && (is_none e.registration_open_notification_completed_at
        && (is_none e.archived_at && e.status != EventStatus.closed))

unfoldable pub confirmation_opening_due : Datetime → Event → Bool
confirmation_opening_due by e =
    is_due e.confirmation_open_at by
    && (is_some e.confirmation_deadline
        && (is_none e.archived_at && e.status == EventStatus.created))

unfoldable pub scheduled_closing_due : Datetime → Event → Bool
scheduled_closing_due by e =
    is_due e.scheduled_close_at by
    && (is_none e.scheduled_close_completed_at
        && (is_none e.archived_at || is_some e.scheduled_close_operation_id))

abbrev pub to_lifecycle : Event → ScheduledLifecycleEvent
to_lifecycle e = record {
  event_id = e.event_id;
  name = e.name;
  game_date = e.game_date;
  status = e.status;
  registration_open_at = e.registration_open_at;
  registration_open_notified_recipients = e.registration_open_notified_recipients;
  registration_open_notification_completed_at = e.registration_open_notification_completed_at;
  confirmation_open_at = e.confirmation_open_at;
  confirmation_deadline = e.confirmation_deadline;
  scheduled_close_at = e.scheduled_close_at;
  scheduled_close_operation_id = e.scheduled_close_operation_id;
  scheduled_close_completed_at = e.scheduled_close_completed_at;
  archived_at = e.archived_at;
}

abbrev pub id_of : Event → String
id_of e = e.event_id

unfoldable pub list_due_lifecycle_events : Datetime → ℕ → Rows → List ScheduledLifecycleEvent
unfolding registration_notification_due confirmation_opening_due scheduled_closing_due
list_due_lifecycle_events due_by limit rows = map to_lifecycle (
    take limit (
      sort_by id_of (
        keep_if
          (λ e.
            registration_notification_due due_by e
            || (confirmation_opening_due due_by e || scheduled_closing_due due_by e))
          (values rows))))

unfoldable pub list_due_registration_notifications : Datetime → ℕ → Rows → List Event
unfolding registration_notification_due
list_due_registration_notifications opened_by limit rows = take limit (
    sort_by {K = Datetime × String}
      (λ (e : Event). (or_else e.registration_open_at opened_by, id_of e))
      (keep_if (registration_notification_due opened_by) (values rows)))

unfoldable pub list_due_confirmation_openings : Datetime → ℕ → Rows → List Event
unfolding confirmation_opening_due
list_due_confirmation_openings opened_by limit rows = take limit (
    sort_by {K = Datetime × String}
      (λ (e : Event). (or_else e.confirmation_open_at opened_by, id_of e))
      (keep_if (confirmation_opening_due opened_by) (values rows)))

unfoldable pub list_due_scheduled_closings : Datetime → ℕ → Rows → List Event
unfolding scheduled_closing_due
list_due_scheduled_closings closed_by limit rows = take limit (
    sort_by {K = Datetime × String}
      (λ (e : Event). (or_else e.scheduled_close_at closed_by, id_of e))
      (keep_if (scheduled_closing_due closed_by) (values rows)))
