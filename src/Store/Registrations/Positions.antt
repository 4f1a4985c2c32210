-- ===== src/Store/Registrations/Positions.antt =====
-- `sift_waiting_to_end` and `swap_queue_positions` of `MemoryRegistrationRepository`.
use rolebot_hse.Base.{
  min_of, ℕ, ◌+◌, ◌-◌, String, Bool, true, false, ◌&&◌, Option, none, some, List, [], ◌∷◌, ◌==◌,
  string_eq, pair_eq, is_some, keep_if, if◌then◌else◌,
}
use rolebot_hse.Dict.{get, adjust}
use rolebot_hse.Domain.Enums.{AttendanceStatus, attendance_eq}
use rolebot_hse.Domain.Event.{Datetime}
use rolebot_hse.Domain.Registration.{Registration}
use rolebot_hse.Domain.Queues.{queue_time, is_active}
use rolebot_hse.Store.Registrations.State.{Rows, event_rows}
use rolebot_hse.Store.Registrations.Enlist.{latest}

-- `min(created_times)` of the rows, if there is one
unfoldable pub earliest : List Registration → Option Datetime
earliest [] = none
earliest (row ∷ rows) = elim (earliest rows) [
  | none ↦ some (queue_time row)
  | some t ↦ some (min_of (queue_time row) t)
]

-- The body of the loop over the active rows.
abbrev pub shift_waiting : ℕ → Registration → Registration
shift_waiting shift r =
    if r.attendance_status == AttendanceStatus.waiting
    then (if is_some r.answer_id
        then record r { answer_queue_at = some (queue_time r + shift) }
        else record r { created_at = r.created_at + shift })
    else r

unfoldable pub shift_rows : String → ℕ → Rows → Rows
shift_rows event_id shift [] = []
shift_rows event_id shift (((stored_event_id, k), r) ∷ rows) =
    let rest = shift_rows event_id shift rows in
    if stored_event_id == event_id && is_active r
    then ((stored_event_id, k), shift_waiting shift r) ∷ rest
    else ((stored_event_id, k), r) ∷ rest

-- `none` where no row is active
unfoldable pub queue_shift : List Registration → Option ℕ
unfolding latest earliest
queue_shift active = elim (latest active) [
  | none ↦ none
  | some t ↦ elim (earliest active) [ none ↦ none | some u ↦ some (t - u + 1) ]
]

unfoldable pub sift_waiting_to_end : String → Rows → Rows
unfolding queue_shift shift_rows event_rows
sift_waiting_to_end event_id rows =
    elim (queue_shift (keep_if is_active (event_rows event_id rows))) [
      | none ↦ rows
      | some shift ↦ shift_rows event_id shift rows
    ]

abbrev pub moved_to : Datetime → Datetime → String → Registration → Registration
moved_to now time operation_id r =
    let placed : Registration =
      if is_some r.answer_id
      then record r { answer_queue_at = some time }
      else record r { created_at = time } in
    record placed { last_operation_id = operation_id; updated_at = now }

abbrev pub swap_found :
    Datetime
    → String
    → String
    → String
    → Datetime
    → String
    → Datetime
    → Rows
    → Option Registration
    → Option Registration
    → Rows × Bool
swap_found now event_id operation_id promoted_key promoted_at demoted_key demoted_at rows (some p)
      (some d) =
    if p.last_operation_id == operation_id && d.last_operation_id == operation_id
    then (rows, false)
    else (
      adjust (event_id, demoted_key) (moved_to now promoted_at operation_id)
          (adjust (event_id, promoted_key) (moved_to now demoted_at operation_id) rows),
      true,
    )
swap_found now event_id operation_id promoted_key promoted_at demoted_key demoted_at rows _ _ =
    (rows, false)

unfoldable pub swap_queue_positions :
    Datetime → String → String → String → Datetime → String → Datetime → Rows → Rows × Bool
swap_queue_positions now event_id operation_id promoted_key promoted_at demoted_key demoted_at
      rows =
    swap_found now event_id operation_id promoted_key promoted_at demoted_key demoted_at rows
      (get (event_id, promoted_key) rows) (get (event_id, demoted_key) rows)
