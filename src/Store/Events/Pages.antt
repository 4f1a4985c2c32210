-- ===== src/Store/Events/Pages.antt =====
-- `list_page` of `MemoryEventRepository`: one page of the events in order of creation.
use rolebot_hse.Base.{
  ℕ, String, Bool, true, false, ◌&&◌, ◌||◌, Option, none, some, List, ◌==◌, ◌-◌, string_eq, nat_eq,
  bool_eq, mem, length, take, drop, keep_if, is_some, ltb, if◌then◌else◌,
}
use mathlib.Core.List.{reverse}
use rolebot_hse.Base.Order.{nat_order, text_order, pair_order}
use rolebot_hse.Base.Sort.{sort_by}
use rolebot_hse.Errors.{Result, ok, err, Error}
use rolebot_hse.Dict.{values}
use rolebot_hse.Domain.Enums.{EventStatus, status_eq}
use rolebot_hse.Domain.Event.{Datetime, Event, max_event_page_size, registration_is_open}
use rolebot_hse.Store.Events.State.{Rows}

abbrev pub Cursor : Type 0
Cursor = Datetime × String

abbrev pub cursor : Event → Cursor
cursor e = (e.created_at, e.event_id)

abbrev pub before_in_time : Cursor → Cursor → Bool
before_in_time = pair_order.lt

-- The arguments of `list_page`, with the reading of the clock.
pub record PageQuery : Type 0 where
  pub statuses : Option (List EventStatus)
  pub after : Option Cursor
  pub before : Option Cursor
  pub archived : Option Bool
  pub registration_opened : Option Bool
  pub newest_first : Bool
  pub limit : ℕ

-- A reverse sort keeps the order of equal keys, as sorting the reversed list and reversing does.
abbrev pub in_order : Bool → List Event → List Event
in_order false events = sort_by cursor events
in_order true events = reverse (sort_by cursor (reverse events))

abbrev pub with_statuses : Option (List EventStatus) → List Event → List Event
with_statuses none events = events
with_statuses (some accepted) events = keep_if (λ e. mem e.status accepted) events

abbrev pub with_archived : Option Bool → List Event → List Event
with_archived none events = events
with_archived (some archived) events = keep_if (λ e. is_some e.archived_at == archived) events

abbrev pub with_registration : Datetime → Option Bool → List Event → List Event
with_registration now none events = events
with_registration now (some opened) events =
    keep_if (λ e. registration_is_open e now == opened) events

abbrev pub behind : Bool → Option Cursor → List Event → List Event
behind newest_first none events = events
behind false (some c) events = keep_if (λ e. before_in_time c (cursor e)) events
behind true (some c) events = keep_if (λ e. before_in_time (cursor e) c) events

-- `values[-limit:]`
abbrev take_last : ℕ → List Event → List Event
take_last n xs = if n == 0 then xs else drop (length xs - n) xs

abbrev pub in_front : Bool → Option Cursor → ℕ → List Event → List Event
in_front newest_first none limit events = events
in_front false (some c) limit events =
    take_last limit (keep_if (λ e. before_in_time (cursor e) c) events)
in_front true (some c) limit events =
    take_last limit (keep_if (λ e. before_in_time c (cursor e)) events)

unfoldable pub list_page : Datetime → PageQuery → Rows → Result (List Event)
list_page now q rows =
    if ltb q.limit 1 || ltb max_event_page_size q.limit
    then err Error.value_error
    else if is_some q.after && is_some q.before
    then err Error.value_error
    else ok (
        take q.limit (
          in_front q.newest_first q.before q.limit (
            behind q.newest_first q.after (
              with_registration now q.registration_opened (
                with_archived q.archived
                  (with_statuses q.statuses (in_order q.newest_first (values rows))))))))
