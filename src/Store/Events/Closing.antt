-- ===== src/Store/Events/Closing.antt =====
-- The methods of `MemoryEventRepository` that close, archive and reopen a game.
use rolebot_hse.Base.{
  String, Bool, true, false, ◌&&◌, ◌||◌, Option, none, some, [], ◌∷◌, ◌++◌, ◌==◌, ◌!=◌, not,
  string_eq, nat_eq, option_eq, mem, is_some, is_none, if◌then◌else◌,
}
use rolebot_hse.Errors.{Result, ok, ◌>>=◌}
use rolebot_hse.Dict.{get, put}
use rolebot_hse.Domain.Enums.{EventStatus, status_eq}
use rolebot_hse.Domain.Event.{Datetime, Event, model_validate}
use rolebot_hse.Store.Events.State.{Rows, on_event, on_event_or_raise}

-- The body of `set_scheduled_close_at` after its event was found; so for the two below.
unfoldable pub reschedule : Datetime → Option Datetime → Event → Event × Bool
reschedule now closes_at e =
    if is_some e.scheduled_close_operation_id
    then (e, false)
    else if e.scheduled_close_at == closes_at
    then (e, false)
    else (
      record e {
        scheduled_close_at = closes_at;
        scheduled_close_notified_recipients = [];
        scheduled_close_completed_at = none;
        updated_at = now;
      },
      true,
    )

unfoldable pub set_scheduled_close_at : Datetime → String → Option Datetime → Rows → Rows × Bool
unfolding on_event reschedule
set_scheduled_close_at now event_id closes_at = on_event event_id (reschedule now closes_at)

unfoldable pub complete_actions : String → Datetime → Event → Event × Bool
complete_actions operation_id completed_at e =
    if e.scheduled_close_operation_id != some operation_id
    then (e, false)
    else if is_some e.archived_at
    then (e, true)
    else (
      record e {
        status = EventStatus.closed;
        archived_at = some completed_at;
        updated_at = completed_at;
      },
      true,
    )

unfoldable pub complete_scheduled_close_actions : String → String → Datetime → Rows → Rows × Bool
unfolding on_event complete_actions
complete_scheduled_close_actions event_id operation_id completed_at =
    on_event event_id (complete_actions operation_id completed_at)

unfoldable pub begin_close : String → Datetime → Event → Event × Bool
begin_close operation_id started_at e =
    if e.scheduled_close_operation_id == some operation_id
    then (e, true)
    else if is_some e.archived_at || is_some e.scheduled_close_operation_id
    then (e, false)
    else (
      record e {
        status = EventStatus.closed;
        scheduled_close_operation_id = some operation_id;
        updated_at = started_at;
      },
      true,
    )

unfoldable pub start_scheduled_close : String → String → Datetime → Rows → Rows × Bool
unfolding on_event begin_close
start_scheduled_close event_id operation_id started_at =
    on_event event_id (begin_close operation_id started_at)

unfoldable pub mark_scheduled_close_notification_delivered :
    Datetime → String → String → String → Rows → Result Rows
unfolding on_event_or_raise
mark_scheduled_close_notification_delivered now event_id operation_id recipient =
    on_event_or_raise event_id (λ e.
      if e.scheduled_close_operation_id == some operation_id
        && not (mem recipient e.scheduled_close_notified_recipients)
      then record e {
        scheduled_close_notified_recipients =
            e.scheduled_close_notified_recipients ++ recipient ∷ [];
        updated_at = now;
      }
      else e)

unfoldable pub complete_scheduled_close_notifications :
    String → String → Datetime → Rows → Result Rows
unfolding on_event_or_raise
complete_scheduled_close_notifications event_id operation_id completed_at =
    on_event_or_raise event_id (λ e.
      if e.scheduled_close_operation_id == some operation_id
        && is_none e.scheduled_close_completed_at
      then record e { scheduled_close_completed_at = some completed_at; updated_at = completed_at }
      else e)

-- The new row of a method that validates a copy, put in place of the old one.
abbrev pub replace_row : String → Rows → Result Event → Result (Rows × Bool)
replace_row event_id rows validated = validated >>= λ e. ok (put event_id e rows, true)

module _ (fields_ok : Event → Bool) where
  unfoldable pub archive : String → Datetime → Rows → Result (Rows × Bool)
  unfolding model_validate
  archive event_id archived_at rows = elim (get event_id rows) [
    | none ↦ ok (rows, false)
    | some e ↦
        if is_some e.archived_at
        then ok (rows, false)
        else replace_row event_id rows (
            model_validate fields_ok (record e {
              status = EventStatus.closed;
              archived_at = some archived_at;
              updated_at = archived_at;
            }))
  ]

  unfoldable pub unarchive : String → Datetime → Rows → Result (Rows × Bool)
  unfolding model_validate
  unarchive event_id updated_at rows = elim (get event_id rows) [
    | none ↦ ok (rows, false)
    | some e ↦
        if is_none e.archived_at
        then ok (rows, false)
        else replace_row event_id rows
            (model_validate fields_ok (record e { archived_at = none; updated_at = updated_at }))
  ]
