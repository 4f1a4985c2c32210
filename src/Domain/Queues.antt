-- ===== src/Domain/Queues.antt =====
-- The queue rules of larp_bot/domain/registration_queues.py.
pub mod Rosters
pub mod Positions
use rolebot_hse.Base.{
  ℕ, zero, suc, ◌+◌, String, Bool, true, false, not, ◌&&◌, ◌||◌, Option, none, some, List, [], ◌∷◌,
  ◌++◌, map, ◌==◌, ◌!=◌, string_eq, nat_eq, option_eq, mem, take, keep_if, is_none, or_else,
  if◌then◌else◌,
}
use rolebot_hse.Base.Order.{nat_order, text_order, pair_order}
use rolebot_hse.Base.Sort.{sort_by}
use rolebot_hse.Domain.Enums.{AttendanceStatus, attendance_eq}
use rolebot_hse.Domain.Event.{Datetime, AnswerOption, RegistrationQuestion, Event, question_option}
use rolebot_hse.Domain.Registration.{Registration}
use rolebot_hse.Errors.{Result, ok, err, Error}

abbrev pub queue_time : Registration → Datetime
queue_time row = or_else row.answer_queue_at row.created_at

abbrev pub queue_key : Registration → Datetime × String
queue_key row = (queue_time row, row.participant_key)

-- `row.attendance_status is not AttendanceStatus.CANCELLED`
abbrev pub is_active : Registration → Bool
is_active row = row.attendance_status != AttendanceStatus.cancelled

-- the test of the generator in `active_queue`
abbrev pub is_queued : Option String → Registration → Bool
is_queued answer_id row = is_active row && (is_none answer_id || row.answer_id == answer_id)

unfoldable pub active_queue : List Registration → Option String → List Registration
active_queue rows answer_id = sort_by queue_key (keep_if (is_queued answer_id) rows)

unfoldable pub answer_capacity : Event → Option String → Result ℕ
answer_capacity event answer_id = elim event.registration_question [
  | none ↦ ok event.player_amount
  | some q ↦ elim (question_option q answer_id) [
    | none ↦ err Error.value_error
    | some o ↦ ok o.player_amount
  ]
]

-- the comprehension of `main_roster` over the answers
unfoldable pub answer_rosters : List AnswerOption → List Registration → List Registration
answer_rosters [] rows = []
answer_rosters (o ∷ options) rows =
    take o.player_amount (active_queue rows (some o.option_id)) ++ answer_rosters options rows

unfoldable pub main_roster : Event → List Registration → List Registration
main_roster event rows = elim event.registration_question [
  | none ↦ take event.player_amount (active_queue rows none)
  | some q ↦ answer_rosters q.options rows
]

abbrev pub keys_of : List Registration → List String
keys_of [] = []
keys_of (row ∷ rows) = row.participant_key ∷ keys_of rows

unfoldable pub reserve_roster : Event → List Registration → List Registration
reserve_roster event rows =
    let main_keys = keys_of (main_roster event rows) in
    keep_if (λ row. not (mem row.participant_key main_keys)) (active_queue rows none)

-- `next(index for index, row in enumerate(queue, start) if row.participant_key == key)`;
-- `none` is `StopIteration`.
unfoldable pub position_from : ℕ → String → List Registration → Option ℕ
position_from start key [] = none
position_from start key (row ∷ rows) =
    let rest = position_from (suc start) key rows in
    if row.participant_key == key then some start else rest

unfoldable pub queue_position : Event → List Registration → Registration → Option ℕ
unfolding position_from
queue_position event rows registration =
    let answer_id : Option String = elim event.registration_question [
      | none ↦ none
      | some _ ↦ registration.answer_id
    ] in
    position_from 1 registration.participant_key (active_queue rows answer_id)
