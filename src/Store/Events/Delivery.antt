-- ===== src/Store/Events/Delivery.antt =====
-- The methods of `MemoryEventRepository` that keep the retry state of notifications.
use rolebot_hse.Base.{
  String, Bool, true, false, ◌&&◌, Option, some, List, [], ◌∷◌, ◌++◌, ◌==◌, ◌!=◌, not, string_eq,
  option_eq, mem, keep_if, if◌then◌else◌,
}
use rolebot_hse.Errors.{Result}
use rolebot_hse.Domain.Event.{Datetime, Event}
use rolebot_hse.Store.Events.State.{Rows, on_event, on_event_or_raise}

unfoldable pub append_confirmed_notification :
    Datetime → String → String → String → Rows → Rows × Bool
unfolding on_event
append_confirmed_notification now event_id text operation_id = on_event event_id (λ e.
    if e.last_confirmed_notification_operation_id == some operation_id then (e, false) else (
      record e {
        confirmed_notifications = e.confirmed_notifications ++ text ∷ [];
        last_confirmed_notification_operation_id = some operation_id;
        updated_at = now;
      },
      true,
    ))

unfoldable pub set_reserve_promotion :
    Datetime → String → String → Option String → Rows → Result Rows
unfolding on_event_or_raise
set_reserve_promotion now event_id operation_id participant_key = on_event_or_raise event_id (λ e.
    record e {
      last_reserve_promotion_operation_id = some operation_id;
      last_reserve_promotion_participant_key = participant_key;
      updated_at = now;
    })

unfoldable pub mark_reserve_promotion_delivered : Datetime → String → String → Rows → Result Rows
unfolding on_event_or_raise
mark_reserve_promotion_delivered now event_id operation_id = on_event_or_raise event_id (λ e.
    record e {
      last_reserve_promotion_delivered_operation_id = some operation_id;
      updated_at = now;
    })

unfoldable pub set_confirmed_link_promotion :
    Datetime → String → String → Option String → Rows → Result Rows
unfolding on_event_or_raise
set_confirmed_link_promotion now event_id operation_id participant_key =
    on_event_or_raise event_id (λ e. record e {
      last_confirmed_link_promotion_operation_id = some operation_id;
      last_confirmed_link_promotion_participant_key = participant_key;
      updated_at = now;
    })

unfoldable pub mark_confirmed_link_promotion_delivered :
    Datetime → String → String → Rows → Result Rows
unfolding on_event_or_raise
mark_confirmed_link_promotion_delivered now event_id operation_id = on_event_or_raise event_id (λ e.
    record e {
      last_confirmed_link_promotion_delivered_operation_id = some operation_id;
      updated_at = now;
    })

unfoldable pub mark_registrations_migrated : String → Datetime → Rows → Result Rows
unfolding on_event_or_raise
mark_registrations_migrated event_id migrated_at =
    on_event_or_raise event_id
      (λ e. record e { registrations_migrated_at = some migrated_at; updated_at = migrated_at })

unfoldable pub set_participant_removal :
    Datetime → String → String → List String → Rows → Result Rows
unfolding on_event_or_raise
set_participant_removal now event_id operation_id participant_keys =
    on_event_or_raise event_id (λ e.
      if e.last_participant_removal_operation_id == some operation_id then e else record e {
        last_participant_removal_operation_id = some operation_id;
        participant_removal_keys = participant_keys;
        participant_removal_notified_keys = [];
        updated_at = now;
      })

-- `dict.fromkeys(keys)` as a list: the first of each, without those of `seen`
unfoldable pub unique_after : List String → List String → List String
unique_after seen [] = []
unique_after seen (k ∷ ks) = elim (mem k seen) [
  | true ↦ unique_after seen ks
  | false ↦ k ∷ unique_after (k ∷ seen) ks
]

unfoldable pub added_keys : List String → Event → List String
unfolding unique_after
added_keys participant_keys e =
    keep_if (λ k. not (mem k e.participant_removal_keys)) (unique_after [] participant_keys)

abbrev pub extend_removal : Datetime → List String → Event → Event
extend_removal now [] e = e
extend_removal now (k ∷ ks) e = record e {
  participant_removal_keys = e.participant_removal_keys ++ k ∷ ks;
  updated_at = now;
}

unfoldable pub add_participant_removal_keys :
    Datetime → String → String → List String → Rows → Result Rows
unfolding on_event_or_raise added_keys
add_participant_removal_keys now event_id operation_id participant_keys =
    on_event_or_raise event_id (λ e.
      if e.last_participant_removal_operation_id != some operation_id
      then e
      else extend_removal now (added_keys participant_keys e) e)

unfoldable pub mark_participant_removal_delivered :
    Datetime → String → String → String → Rows → Result Rows
unfolding on_event_or_raise
mark_participant_removal_delivered now event_id operation_id participant_key =
    on_event_or_raise event_id (λ e.
      if e.last_participant_removal_operation_id == some operation_id
        && not (mem participant_key e.participant_removal_notified_keys)
      then record e {
        participant_removal_notified_keys =
            e.participant_removal_notified_keys ++ participant_key ∷ [];
        updated_at = now;
      }
      else e)
