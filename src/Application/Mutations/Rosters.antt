-- ===== src/Application/Mutations/Rosters.antt =====
-- The commands of `apply` that reorder the queue of a game.
use rolebot_hse.Base.{
  ℕ, String, Bool, true, false, not, ◌&&◌, Option, none, some, List, [], ◌∷◌, ◌++◌, is_some, take,
  ltb, length, keep_if, map, mem, nat_eq, string_eq, option_eq, ◌==◌, ◌!=◌, if◌then◌else◌,
}
use rolebot_hse.Base.Text.{◌&◌, decimal}
use rolebot_hse.Base.Prefix.{strip_prefix}
use rolebot_hse.Base.Order.{nat_order, text_order, pair_order}
use rolebot_hse.Base.Sort.{sort_by}
use rolebot_hse.Errors.{ok, err}
use rolebot_hse.Domain.Enums.{AttendanceStatus, attendance_eq}
use rolebot_hse.Domain.Event.{Datetime, Event, AnswerOption}
use rolebot_hse.Domain.Registration.{Registration}
use rolebot_hse.Domain.Command.{OrderedRegistrationCommand}
use rolebot_hse.Domain.Queues.{
  active_queue, answer_capacity, keys_of, main_roster, position_from, queue_key, queue_time,
}
use rolebot_hse.Store.Events.Delivery.{set_participant_removal, add_participant_removal_keys}
use rolebot_hse.Store.Registrations.State.{list_for_event}
use rolebot_hse.Store.Registrations.Positions.{sift_waiting_to_end, swap_queue_positions}
use rolebot_hse.Application.Effects.{Effect, ◌>>=◌, ◌>>◌, pure, raise, when}
use rolebot_hse.Application.Support.{
  MutationResult, done, sift_promoted_prefix, sift_demoted_prefix, sift_snapshot_entry,
  parse_sift_snapshot_entry,
}
use rolebot_hse.Application.Mutations.{
  World, Services, get_event, on_registrations, change_events, refuse, fail_assert,
}
use rolebot_hse.Application.Mutations.Catalog.{refresh, refresh_with_rows}
use rolebot_hse.Application.Mutations.Promotions.{first_of}

abbrev pub status_of : String → List Registration → Option AttendanceStatus
status_of key [] = none
status_of key (row ∷ rows) =
    let rest = status_of key rows in
    -- The dict comprehension keeps the last row of a key.
    if is_some rest
    then rest
    else if row.participant_key == key
    then some row.attendance_status
    else none

abbrev pub is_move_true : List Registration → List String → Option (String × String) → Bool
is_move_true rows main_keys none = false
is_move_true rows main_keys (some (prefix, key)) =
    if prefix == sift_promoted_prefix
    then status_of key rows == some AttendanceStatus.confirmed && mem key main_keys
    else status_of key rows == some AttendanceStatus.waiting && not (mem key main_keys)

-- `_current_sift_entries` of notification_services.py, as the entries in their order. It is a set
-- there, so an entry that the snapshot has twice counts once.
unfoldable pub current_sift_entries : List String → List Registration → Event → List String
unfolding parse_sift_snapshot_entry
current_sift_entries [] rows event = []
current_sift_entries (entry ∷ entries) rows event =
    let rest = current_sift_entries entries rows event in
    if is_move_true rows (keys_of (main_roster event rows)) (parse_sift_snapshot_entry entry)
      && not (mem entry rest)
    then entry ∷ rest
    else rest

abbrev pub is_unconfirmed : Registration → ℕ
is_unconfirmed row = if row.attendance_status == AttendanceStatus.confirmed then 0 else 1

-- The queue with those who confirmed in front.
abbrev pub confirmed_first : List Registration → List Registration
confirmed_first rows =
    sort_by {K = ℕ × (Datetime × String)} (λ row. (is_unconfirmed row, queue_key row)) rows

abbrev pub main_of_answers : List AnswerOption → List Registration → List String
main_of_answers [] rows = []
main_of_answers (o ∷ options) rows =
    keys_of (take o.player_amount (keep_if (λ r. r.answer_id == some o.option_id) rows))
    ++ main_of_answers options rows

abbrev pub main_after : Event → List Registration → List String
main_after event reordered = elim event.registration_question [
  | none ↦ keys_of (take event.player_amount reordered)
  | some q ↦ main_of_answers q.options reordered
]

abbrev pub entries_for : String → (String → Bool) → List String → List String
entries_for prefix p keys = map (sift_snapshot_entry prefix) (keep_if p keys)

-- Who moves between the rosters in a sift.
unfoldable pub sift_moves : Event → List Registration → List String
sift_moves event rows =
    let before = keys_of (main_roster event rows) in
    let after = main_after event (confirmed_first rows) in
    entries_for sift_promoted_prefix (λ key. mem key after && not (mem key before))
      (keys_of (confirmed_first rows))
    ++ entries_for sift_demoted_prefix (λ key. mem key before && not (mem key after)) (keys_of rows)

abbrev pub same_keys : List String → List String → Bool
same_keys [] [] = true
same_keys (a ∷ as') (b ∷ bs) = a == b && same_keys as' bs
same_keys _ _ = false

abbrev pub count_prefix : String → List String → ℕ
count_prefix prefix entries =
    length (keep_if (λ entry. is_some (strip_prefix prefix entry)) entries)

abbrev pub find_row : String → List Registration → Option Registration
find_row key rows = first_of (keep_if (λ row. row.participant_key == key) rows)

module _ {S : Type 0} (services : Services S) (now : Datetime) where
  -- The snapshot of a sift, added to where this operation wrote it before.
  abbrev pub save_moves : Event → String → List String → Effect (World S) (Unit {0})
  save_moves event operation_id moves =
      if event.last_participant_removal_operation_id == some operation_id
      then change_events (add_participant_removal_keys now event.event_id operation_id moves)
      else change_events (set_participant_removal now event.event_id operation_id moves)

  abbrev pub sift : Event → String → List Registration → Effect (World S) (Unit {0})
  sift event operation_id rows =
      if not (same_keys (keys_of rows) (keys_of (confirmed_first rows)))
      then save_moves event operation_id (sift_moves event rows)
        >> on_registrations (λ all. (sift_waiting_to_end event.event_id all, tt))
      else when (event.last_participant_removal_operation_id != some operation_id)
          (change_events (set_participant_removal now event.event_id operation_id []))

  abbrev pub saved_keys : Option Event → List String
  saved_keys none = []
  saved_keys (some event) = event.participant_removal_keys

  abbrev pub sift_text : List String → MutationResult
  sift_text entries = done (
      "Заявки пересортированы: в основной состав перемещено "
      & decimal (count_prefix sift_promoted_prefix entries)
      & ", в запас — "
      & decimal (count_prefix sift_demoted_prefix entries))

  unfoldable pub remove_waiting_participants :
      Event → OrderedRegistrationCommand → Effect (World S) MutationResult
  unfolding current_sift_entries sift_moves
  remove_waiting_participants event c w =
      (sift event c.operation_id
            (active_queue (list_for_event event.event_id w.registrations.rows) none)
          >> refresh_with_rows services now event
          >>= λ (event', rows). get_event event'.event_id >>= λ current.
              pure (sift_text (current_sift_entries (saved_keys current) rows event')))
        w

  -- The last of the main roster who has not confirmed.
  abbrev pub last_waiting : List Registration → Option Registration
  last_waiting [] = none
  last_waiting (row ∷ rows) =
      let later = last_waiting rows in
      elim later [
        | some r ↦ some r
        | none ↦ if row.attendance_status == AttendanceStatus.waiting then some row else none
      ]

  abbrev pub swap_with :
      Event → String → Registration → Option Registration → Effect (World S) MutationResult
  swap_with event operation_id promoted none = refuse
  swap_with event operation_id promoted (some demoted) =
      save_moves event operation_id (
        sift_snapshot_entry sift_promoted_prefix promoted.participant_key
        ∷ sift_snapshot_entry sift_demoted_prefix demoted.participant_key
        ∷ [])
      >> on_registrations (
          swap_queue_positions now event.event_id operation_id promoted.participant_key
            (queue_time promoted) demoted.participant_key (queue_time demoted))
      >> refresh services now event
      >> pure (
          done (
            "Игрок «" & promoted.display_name & "» перемещён в основной состав, игрок «"
            & demoted.display_name & "» — в запас"))

  -- The player must be in the reserve, and confirmed.
  abbrev pub promote_at :
      Event
      → String
      → ℕ
      → List Registration
      → Registration
      → Option ℕ
      → Effect (World S) MutationResult
  promote_at event operation_id capacity rows promoted none = refuse
  promote_at event operation_id capacity rows promoted (some index) =
      if ltb index capacity
      then refuse
      else if promoted.attendance_status != AttendanceStatus.confirmed
      then refuse
      else swap_with event operation_id promoted (last_waiting (take capacity rows))

  abbrev pub promote_in :
      Event → String → ℕ → List Registration → Registration → Effect (World S) MutationResult
  promote_in event operation_id capacity rows promoted =
      if event.last_participant_removal_operation_id == some operation_id
        && mem (sift_snapshot_entry sift_promoted_prefix promoted.participant_key)
            (current_sift_entries event.participant_removal_keys rows event)
      then refresh services now event >> pure (done "Игрок уже перемещён в основной состав")
      else promote_at event operation_id capacity rows promoted
          (position_from 0 promoted.participant_key rows)

  abbrev pub queue_with : Event → Registration → List Registration → List Registration
  queue_with event selected rows = elim event.registration_question [
    | none ↦ rows
    | some _ ↦ active_queue rows selected.answer_id
  ]

  abbrev pub promote_selected :
      Event → String → List Registration → Option Registration → Effect (World S) MutationResult
  promote_selected event operation_id rows none = refuse
  promote_selected event operation_id rows (some selected) =
      elim (answer_capacity event selected.answer_id) [
        | err e ↦ raise e
        | ok capacity ↦
            promote_in event operation_id capacity (queue_with event selected rows) selected
      ]

  abbrev pub promote_key :
      Event → String → Option String → List Registration → Effect (World S) MutationResult
  promote_key event operation_id none rows = fail_assert
  promote_key event operation_id (some key) rows =
      promote_selected event operation_id rows (find_row key rows)

  unfoldable pub promote_reserve_participant :
      Event → OrderedRegistrationCommand → Effect (World S) MutationResult
  unfolding current_sift_entries
  promote_reserve_participant event c w =
      promote_key event c.operation_id c.participant_key
        (active_queue (list_for_event event.event_id w.registrations.rows) none) w
