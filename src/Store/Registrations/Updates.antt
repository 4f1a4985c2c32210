-- ===== src/Store/Registrations/Updates.antt =====
-- The methods of `MemoryRegistrationRepository` that change the row of one participant, and
-- `update_answer`. A missing row is Python's `KeyError` where the code subscripts the dict.
use rolebot_hse.Base.{
  bool_eq, ◌+◌, String, Bool, true, false, ◌&&◌, Option, none, some, List, [], ◌∷◌, ◌==◌, ◌!=◌,
  string_eq, option_eq, pair_eq, is_none, keep_if, all_of, max_of, or_else, if◌then◌else◌,
}
use rolebot_hse.Errors.{Result, ok, err, Error}
use rolebot_hse.Dict.{get, pop, adjust}
use rolebot_hse.Domain.Enums.{AttendanceStatus, attendance_eq}
use rolebot_hse.Domain.Event.{Datetime}
use rolebot_hse.Domain.Registration.{Registration}
use rolebot_hse.Domain.Queues.{is_active}
use rolebot_hse.Store.Registrations.State.{Key, Rows, event_rows}
use rolebot_hse.Store.Registrations.Enlist.{latest}

-- `[self.rows[(event_id, key)] for key in participant_keys if (event_id, key) in self.rows]`
unfoldable pub found_rows : String → List String → Rows → List Registration
found_rows event_id [] rows = []
found_rows event_id (k ∷ ks) rows = elim (get (event_id, k) rows) [
  | none ↦ found_rows event_id ks rows
  | some r ↦ r ∷ found_rows event_id ks rows
]

-- `for row in rows: ...` over the rows of some participants
unfoldable pub adjust_many : String → (Registration → Registration) → List String → Rows → Rows
adjust_many event_id f [] rows = rows
adjust_many event_id f (k ∷ ks) rows = adjust_many event_id f ks (adjust (event_id, k) f rows)

-- The queue time that an answer gets; `now` is the reading of the clock for the default and
-- `later` the one for the maximum.
unfoldable pub answer_queue_time : Datetime → Datetime → String → String → Rows → Datetime
unfolding latest event_rows
answer_queue_time now later event_id answer_id rows = max_of later (
    or_else
      (latest (
        keep_if (λ row. row.answer_id == some answer_id && is_active row)
          (event_rows event_id rows)))
      now
    + 1)

unfoldable pub update_answer :
    Datetime → Datetime → Datetime → String → String → List String → String → Rows → Rows × Bool
unfolding found_rows adjust_many answer_queue_time
update_answer now later updated event_id operation_id participant_keys answer_id rows =
    let found = found_rows event_id participant_keys rows in
    if all_of (λ row. row.last_operation_id == operation_id) found
    then (rows, false)
    else if all_of (λ row. row.answer_id == some answer_id) found
    then (rows, false)
    else (
      adjust_many event_id
          (λ row. record row {
            answer_id = some answer_id;
            answer_queue_at = some (answer_queue_time now later event_id answer_id rows);
            last_operation_id = operation_id;
            updated_at = updated;
          })
          participant_keys rows,
      true,
    )

-- The keyword arguments of `update_profile`.
pub record ProfileUpdate : Type 0 where
  pub operation_id : String
  pub participant_key : String
  pub display_name : String
  pub nickname : Option String
  pub larp_experience : Bool
  pub crossplay : Bool
  pub vk_profile : String
  pub telegram_profile : Option String

-- Where the row is there and was not last changed by this operation, change it.
abbrev pub unless_applied :
    String → Key → (Registration → Registration) → Rows → Option Registration → Rows × Bool
unless_applied operation_id key f rows none = (rows, false)
unless_applied operation_id key f rows (some r) =
    if r.last_operation_id == operation_id then (rows, false) else (adjust key f rows, true)

unfoldable pub update_profile : Datetime → String → ProfileUpdate → Rows → Rows × Bool
update_profile now event_id a rows =
    unless_applied a.operation_id (event_id, a.participant_key)
      (λ r. record r {
        display_name = a.display_name;
        nickname = a.nickname;
        vk_profile = a.vk_profile;
        telegram_profile = a.telegram_profile;
        larp_experience = some a.larp_experience;
        crossplay = some a.crossplay;
        last_operation_id = a.operation_id;
        updated_at = now;
      })
      rows (get (event_id, a.participant_key) rows)

-- `registration = self.rows[key]`, then the change unless this operation made it already
abbrev pub subscripted :
    String → Key → (Registration → Registration) → Rows → Option Registration → Result (Rows × Bool)
subscripted operation_id key f rows none = err Error.key_error
subscripted operation_id key f rows (some r) = ok (unless_applied operation_id key f rows (some r))

-- `self.rows.pop((replaced_event_id, replaced_participant_key), None)`, if both are given
abbrev pub without_replaced : Option String → Option String → Rows → Rows
without_replaced (some event_id) (some key) rows = pop (event_id, key) rows
without_replaced _ _ rows = rows

unfoldable pub confirmed_by : Datetime → String → String → Registration → Registration
confirmed_by now operation_id character_wish r = record r {
  character_wish = character_wish;
  attendance_status = AttendanceStatus.confirmed;
  last_operation_id = operation_id;
  updated_at = now;
}

-- The row is looked up before the replaced one is dropped, and its object is changed after.
unfoldable pub confirm :
    Datetime
    → String
    → String
    → String
    → String
    → Option String
    → Option String
    → Rows
    → Result (Rows × Bool)
unfolding confirmed_by
confirm now event_id operation_id participant_key character_wish replaced_event_id replaced_key
      rows =
    if is_none replaced_event_id != is_none replaced_key
    then err Error.value_error
    else if replaced_event_id == some event_id
    then err Error.value_error
    else subscripted operation_id (event_id, participant_key)
        (confirmed_by now operation_id character_wish)
        (without_replaced replaced_event_id replaced_key rows)
        (get (event_id, participant_key) rows)

unfoldable pub with_character_wish : Datetime → String → String → Registration → Registration
with_character_wish now operation_id character_wish r = record r {
  character_wish = character_wish;
  last_operation_id = operation_id;
  updated_at = now;
}

unfoldable pub update_character_wish :
    Datetime → String → String → String → String → Rows → Result (Rows × Bool)
unfolding with_character_wish
update_character_wish now event_id operation_id participant_key character_wish rows =
    subscripted operation_id (event_id, participant_key)
      (with_character_wish now operation_id character_wish) rows
      (get (event_id, participant_key) rows)

unfoldable pub with_wish_play : Datetime → String → String → Registration → Registration
with_wish_play now operation_id wish_play r = record r {
  wish_play = wish_play;
  last_operation_id = operation_id;
  updated_at = now;
}

unfoldable pub update_co_player_wish :
    Datetime → String → String → String → String → Rows → Result (Rows × Bool)
unfolding with_wish_play
update_co_player_wish now event_id operation_id participant_key wish_play rows =
    subscripted operation_id (event_id, participant_key) (with_wish_play now operation_id wish_play)
      rows (get (event_id, participant_key) rows)

unfoldable pub cancelled_by : Datetime → String → Registration → Registration
cancelled_by now operation_id r = record r {
  attendance_status = AttendanceStatus.cancelled;
  last_operation_id = operation_id;
  updated_at = now;
}

unfoldable pub cancel : Datetime → String → String → String → Rows → Result (Rows × Bool)
unfolding cancelled_by
cancel now event_id operation_id participant_key rows =
    subscripted operation_id (event_id, participant_key) (cancelled_by now operation_id) rows
      (get (event_id, participant_key) rows)
