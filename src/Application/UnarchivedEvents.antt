-- ===== src/Application/UnarchivedEvents.antt =====
-- `_unarchived_events` of larp_bot/application/registration_services.py: the walk over the pages of
-- the event repository, which caps each page. The children prove what the walk returns.
pub mod Walk
use rolebot_hse.Base.{
  ℕ, zero, suc, Bool, true, false, Option, none, some, List, [], ◌∷◌, ◌++◌, length, ltb,
  if◌then◌else◌,
}
use rolebot_hse.Errors.{Result, ok, err}
use rolebot_hse.Domain.Event.{Datetime, Event, max_event_page_size}
use rolebot_hse.Store.Events.State.{Rows}
use rolebot_hse.Store.Events.Pages.{Cursor, PageQuery, cursor, list_page}

-- `page[-1]`, if the page is not empty
abbrev pub last_cursor : Option Cursor → List Event → Option Cursor
last_cursor c [] = c
last_cursor c (e ∷ es) = last_cursor (some (cursor e)) es

abbrev pub page_query : Option Cursor → PageQuery
page_query after = record {
  statuses = none;
  after = after;
  before = none;
  archived = some false;
  registration_opened = none;
  newest_first = false;
  limit = max_event_page_size;
}

-- The loop, on fuel; `none` means that the fuel ran out.
unfoldable pub walk :
    ℕ → Datetime → Rows → Option Cursor → List Event → Option (Result (List Event))
walk zero now rows after found = none
walk (suc fuel) now rows after found = elim (list_page now (page_query after) rows) [
  | err e ↦ some (err e)
  | ok page ↦ elim (ltb (length page) max_event_page_size) [
    | true ↦ some (ok (found ++ page))
    | false ↦ walk fuel now rows (last_cursor after page) (found ++ page)
  ]
]

unfoldable pub unarchived_events : ℕ → Datetime → Rows → Option (Result (List Event))
unfolding walk
unarchived_events fuel now rows = walk fuel now rows none []
