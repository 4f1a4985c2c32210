-- ===== src/Store/Registrations/State.antt =====
-- The rows of `MemoryRegistrationRepository` and the methods that read, import and delete them.
-- `deepcopy` has no counterpart: the model has no shared objects, and the repository hands none out.
use rolebot_hse.Base.{
  ℕ, ◌-◌, String, Bool, ◌&&◌, Option, none, some, List, [], ◌∷◌, ◌==◌, string_eq, nat_eq, option_eq,
  pair_eq, mem, length, take, drop, keep_if, is_some, if◌then◌else◌,
}
use rolebot_hse.Base.Order.{nat_order, text_order, pair_order}
use rolebot_hse.Base.Sort.{sort_by}
use rolebot_hse.Errors.{Result, ok, err, Error}
use rolebot_hse.Dict.{Dict, get, put, pop, values}
use rolebot_hse.Domain.Enums.{AttendanceStatus, attendance_eq}
use rolebot_hse.Domain.Event.{Datetime}
use rolebot_hse.Domain.Registration.{Registration}

abbrev pub Key : Type 0
Key = String × String

abbrev pub Rows : Type 0
Rows = Dict Key Registration

abbrev pub key_of : Registration → Key
key_of r = (r.event_id, r.participant_key)

pub record MemoryRegistrationRepository : Type 0 where
  pub participation_deliveries : List (Key × String)
  pub rows : Rows

-- `MemoryRegistrationRepository.__init__`: a dict comprehension, so a later row replaces an earlier
unfoldable pub of_registrations : List Registration → Rows → Rows
of_registrations [] rows = rows
of_registrations (r ∷ rs) rows = of_registrations rs (put (key_of r) r rows)

unfoldable pub init : List Registration → MemoryRegistrationRepository
unfolding of_registrations
init registrations = record {
  participation_deliveries = [];
  rows = of_registrations registrations [];
}

unfoldable pub participation_notification_delivered :
    String → String → String → MemoryRegistrationRepository → Bool
participation_notification_delivered event_id participant_key request_id repository =
    mem ((event_id, participant_key), request_id) repository.participation_deliveries

unfoldable pub mark_participation_notification_delivered :
    String → String → String → MemoryRegistrationRepository → MemoryRegistrationRepository
mark_participation_notification_delivered event_id participant_key request_id repository =
    let entry : Key × String = ((event_id, participant_key), request_id) in
    if mem entry repository.participation_deliveries then repository else record repository {
      participation_deliveries = entry ∷ repository.participation_deliveries;
    }

-- `MemoryRegistrationRepository.get`
unfoldable pub get_registration : String → String → Rows → Option Registration
get_registration event_id participant_key rows = get (event_id, participant_key) rows

-- `[value for (stored_event_id, _), value in self.rows.items() if stored_event_id == event_id]`
unfoldable pub event_rows : String → Rows → List Registration
event_rows event_id [] = []
event_rows event_id (((stored_event_id, k), r) ∷ rows) =
    let rest = event_rows event_id rows in if stored_event_id == event_id then r ∷ rest else rest

abbrev pub cursor : Registration → Datetime × String
cursor r = (r.created_at, r.participant_key)

unfoldable pub find_by_telegram_profile : String → Rows → List Registration
find_by_telegram_profile profile rows =
    sort_by key_of (keep_if (λ r. r.telegram_profile == some profile) (values rows))

unfoldable pub list_for_event : String → Rows → List Registration
unfolding event_rows
list_for_event event_id rows = sort_by cursor (event_rows event_id rows)

-- `xs[-n:]`
abbrev pub take_last {ℓ} : {A : Type ℓ} → ℕ → List A → List A
take_last n xs = if n == 0 then xs else drop (length xs - n) xs

abbrev pub after_cursor : Option (Datetime × String) → List Registration → List Registration
after_cursor none rows = rows
after_cursor (some c) rows = keep_if (λ r. pair_order.lt c (cursor r)) rows

abbrev pub before_cursor : Option (Datetime × String) → ℕ → List Registration → List Registration
before_cursor none limit rows = rows
before_cursor (some c) limit rows = take_last limit (keep_if (λ r. pair_order.lt (cursor r) c) rows)

abbrev pub with_statuses : Option (List AttendanceStatus) → List Registration → List Registration
with_statuses none rows = rows
with_statuses (some accepted) rows = keep_if (λ r. mem r.attendance_status accepted) rows

unfoldable pub list_page_for_event :
    String
    → Option (List AttendanceStatus)
    → Option (Datetime × String)
    → Option (Datetime × String)
    → ℕ
    → Rows
    → Result (List Registration)
unfolding event_rows
list_page_for_event event_id statuses after before limit rows =
    if is_some after && is_some before
    then err Error.value_error
    else ok (
        take limit (
          before_cursor before limit (
            after_cursor after
              (sort_by cursor (with_statuses statuses (event_rows event_id rows))))))

unfoldable pub import_missing : List Registration → Rows → Rows
import_missing [] rows = rows
import_missing (r ∷ rs) rows =
    import_missing rs (if is_some (get (key_of r) rows) then rows else put (key_of r) r rows)

unfoldable pub remove : String → String → Rows → Rows × Bool
remove event_id participant_key rows =
    (pop (event_id, participant_key) rows, is_some (get (event_id, participant_key) rows))

unfoldable pub remove_many : String → List String → Rows → Rows
remove_many event_id [] rows = rows
remove_many event_id (k ∷ ks) rows = remove_many event_id ks (pop (event_id, k) rows)

unfoldable pub delete_for_event : String → Rows → Rows
delete_for_event event_id [] = []
delete_for_event event_id (((stored_event_id, k), r) ∷ rows) =
    let rest = delete_for_event event_id rows in
    if stored_event_id == event_id then rest else ((stored_event_id, k), r) ∷ rest
