-- ===== src/Store/Registrations/Enlist.antt =====
-- `MemoryRegistrationRepository.enlist`: a signup goes to the end of its game's queue.
use rolebot_hse.Base.{
  ◌+◌, String, Bool, true, false, Option, none, some, List, [], ◌∷◌, ◌==◌, string_eq, pair_eq,
  is_some, keep_if, max_of, if◌then◌else◌,
}
use rolebot_hse.Dict.{get, put, adjust}
use rolebot_hse.Domain.Enums.{AttendanceStatus, attendance_eq}
use rolebot_hse.Domain.Event.{Datetime}
use rolebot_hse.Domain.Registration.{Registration}
use rolebot_hse.Domain.Queues.{queue_time, is_active}
use rolebot_hse.Store.Registrations.State.{Rows, event_rows}

-- The keyword arguments of `enlist`.
pub record Enlistment : Type 0 where
  pub operation_id : String
  pub participant_key : String
  pub display_name : String
  pub nickname : Option String
  pub wish_play : String
  pub larp_experience : Option Bool
  pub crossplay : Option Bool
  pub vk_profile : String
  pub telegram_profile : Option String
  pub answer_id : Option String

-- `max(queue_key(row)[0] for row in ..., default=None)`
unfoldable pub latest : List Registration → Option Datetime
latest [] = none
latest (row ∷ rows) = elim (latest rows) [
  | none ↦ some (queue_time row)
  | some t ↦ some (max_of (queue_time row) t)
]

abbrev pub after_latest : Datetime → Option Datetime → Datetime
after_latest now none = now
after_latest now (some t) = max_of now (t + 1)

-- The queue time of a new or returning participant.
unfoldable pub next_queue_time : Datetime → String → Rows → Datetime
unfolding latest event_rows
next_queue_time now event_id rows =
    after_latest now (latest (keep_if is_active (event_rows event_id rows)))

-- The last four assignments of `enlist`.
abbrev pub stamp : Enlistment → Datetime → Datetime → Registration → Registration
stamp a time updated r = record r {
  answer_id = a.answer_id;
  answer_queue_at = if is_some a.answer_id then some time else none;
  last_operation_id = a.operation_id;
  updated_at = updated;
}

abbrev pub new_registration : String → Enlistment → Datetime → Registration
new_registration event_id a time = record {
  event_id = event_id;
  participant_key = a.participant_key;
  display_name = a.display_name;
  nickname = a.nickname;
  vk_profile = a.vk_profile;
  telegram_profile = a.telegram_profile;
  wish_play = a.wish_play;
  answer_id = none;
  answer_queue_at = none;
  larp_experience = a.larp_experience;
  crossplay = a.crossplay;
  character_wish = "";
  attendance_status = AttendanceStatus.waiting;
  last_operation_id = "";
  created_at = time;
  updated_at = time;
}

-- The branch for a row that is there already.
abbrev pub enlist_again : Enlistment → Datetime → Registration → Registration
enlist_again a time r = record r {
  display_name = a.display_name;
  nickname = a.nickname;
  wish_play = a.wish_play;
  larp_experience = a.larp_experience;
  crossplay = a.crossplay;
  vk_profile = a.vk_profile;
  telegram_profile = a.telegram_profile;
  attendance_status =
      if r.attendance_status == AttendanceStatus.cancelled
      then AttendanceStatus.waiting
      else r.attendance_status;
  created_at = if r.attendance_status == AttendanceStatus.cancelled then time else r.created_at;
}

-- `now` and `updated` are the two readings of the clock. The second argument is the row found.
unfoldable pub enlist_found :
    Datetime → Datetime → String → Enlistment → Rows → Option Registration → Rows × Bool
unfolding next_queue_time
enlist_found now updated event_id a rows none =
    let time = next_queue_time now event_id rows in
    (
      put (event_id, a.participant_key) (stamp a time updated (new_registration event_id a time))
          rows,
      true,
    )
enlist_found now updated event_id a rows (some r) =
    let time =
      if r.attendance_status == AttendanceStatus.cancelled
      then next_queue_time now event_id rows
      else now in
    if r.last_operation_id == a.operation_id then (rows, false) else (
      adjust (event_id, a.participant_key) (λ s. stamp a time updated (enlist_again a time s)) rows,
      true,
    )

unfoldable pub enlist : Datetime → Datetime → String → Enlistment → Rows → Rows × Bool
unfolding enlist_found
enlist now updated event_id a rows =
    enlist_found now updated event_id a rows (get (event_id, a.participant_key) rows)
