-- ===== src/Application/Mutations/Promotions.antt =====
-- Who moves up when a player leaves the queue, as a snapshot that a repeated delivery reads.
use rolebot_hse.Base.{
  ℕ, String, ◌&&◌, ◌||◌, Option, none, some, List, [], ◌∷◌, length, drop, ltb, string_eq, option_eq,
  ◌==◌, ◌!=◌, if◌then◌else◌,
}
use rolebot_hse.Errors.{ok, err}
use rolebot_hse.Domain.Enums.{AttendanceStatus, attendance_eq}
use rolebot_hse.Domain.Event.{Datetime, Event, RegistrationQuestion}
use rolebot_hse.Domain.Registration.{Registration}
use rolebot_hse.Domain.Command.{OrderedRegistrationCommand}
use rolebot_hse.Domain.Queues.{active_queue, answer_capacity, position_from, is_active}
use rolebot_hse.Store.Events.Delivery.{set_reserve_promotion, set_confirmed_link_promotion}
use rolebot_hse.Store.Registrations.State.{list_for_event}
use rolebot_hse.Application.Effects.{Effect, ◌>>=◌, ◌>>◌, pure, raise}
use rolebot_hse.Application.Mutations.{World, change_events}

abbrev pub first_of : List Registration → Option Registration
first_of [] = none
first_of (row ∷ rows) = some row

-- The first player of the reserve, where a player of the main roster leaves.
unfoldable pub promoted_row : ℕ → Option Registration → List Registration → Option Registration
promoted_row capacity none active = none
promoted_row capacity (some registration) active =
    if is_active registration
    then elim (position_from 0 registration.participant_key active) [
      | none ↦ none
      | some index ↦
          if ltb index capacity && ltb capacity (length active)
          then first_of (drop capacity active)
          else none
    ]
    else none

abbrev pub key_of : Option Registration → Option String
key_of none = none
key_of (some row) = some row.participant_key

abbrev pub if_confirmed : Option Registration → Option Registration
if_confirmed none = none
if_confirmed (some row) =
    if row.attendance_status == AttendanceStatus.confirmed then some row else none

module _ {S : Type 0} (now : Datetime) where
  unfoldable pub record_reserve_promotion :
      Event
      → OrderedRegistrationCommand
      → Option Registration
      → List Registration
      → Effect (World S) Event
  unfolding promoted_row
  record_reserve_promotion event c registration active =
      let key = key_of (promoted_row event.player_amount registration active) in
      if event.last_reserve_promotion_operation_id == some c.operation_id
      then pure event
      else change_events (set_reserve_promotion now event.event_id c.operation_id key)
        >> pure (record event {
          last_reserve_promotion_operation_id = some c.operation_id;
          last_reserve_promotion_participant_key = key;
        })

  unfoldable pub record_confirmed_link_promotion :
      Event
      → OrderedRegistrationCommand
      → Option Registration
      → List Registration
      → Effect (World S) Event
  unfolding promoted_row
  record_confirmed_link_promotion event c registration active =
      let key = key_of (if_confirmed (promoted_row event.player_amount registration active)) in
      if event.last_confirmed_link_promotion_operation_id == some c.operation_id
      then pure event
      else change_events (set_confirmed_link_promotion now event.event_id c.operation_id key)
        >> pure (record event {
          last_confirmed_link_promotion_operation_id = some c.operation_id;
          last_confirmed_link_promotion_participant_key = key;
        })

  -- The rows that are read, if a promotion is still to be recorded.
  abbrev pub rows_to_promote :
      Event → OrderedRegistrationCommand → Option Registration → World S → List Registration
  rows_to_promote event c none w = []
  rows_to_promote event c (some registration) w =
      if is_active registration
        && (event.last_reserve_promotion_operation_id != some c.operation_id
            || event.last_confirmed_link_promotion_operation_id != some c.operation_id)
      then active_queue (list_for_event event.event_id w.registrations.rows) none
      else []

  abbrev pub record_both :
      Event
      → OrderedRegistrationCommand
      → Option Registration
      → List Registration
      → Effect (World S) Event
  record_both event c registration active =
      record_reserve_promotion event c registration active >>= λ (event' : Event).
      record_confirmed_link_promotion event' c registration active

  -- With a question, the queue and the capacity of the player's answer, on a copy of the event.
  abbrev pub record_for :
      Event
      → OrderedRegistrationCommand
      → Option Registration
      → Option RegistrationQuestion
      → List Registration
      → Effect (World S) Event
  record_for event c none question active = record_both event c none active
  record_for event c (some r) none active = record_both event c (some r) active
  record_for event c (some r) (some q) active = elim (answer_capacity event r.answer_id) [
    | err e ↦ raise e
    | ok capacity ↦
        record_both (record event { player_amount = capacity }) c (some r)
          (active_queue active r.answer_id)
        >> pure event
  ]

  -- The result is the event as the caller has it afterwards.
  unfoldable pub record_promotions :
      Event → OrderedRegistrationCommand → Option Registration → Effect (World S) Event
  unfolding record_reserve_promotion record_confirmed_link_promotion
  record_promotions event c registration w =
      record_for event c registration event.registration_question
        (rows_to_promote event c registration w) w
