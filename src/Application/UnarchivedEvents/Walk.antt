-- ===== src/Application/UnarchivedEvents/Walk.antt =====
-- The walk over the pages returns every unarchived event once, in order of creation.
use mathlib.Core.List.{append_assoc}
use rolebot_hse.Base.{
  ℕ, zero, suc, ◌<◌, ◌≤◌, ◌≡◌, refl, ap, sym, ◌∙◌, true, false, Option, none, some, List, [], ◌∷◌,
  ◌++◌, arith, length, take, drop, keep_if, is_some, nat_eq, string_eq, bool_eq, ltb, length-append,
  take-append-drop, Bool-cases, inl, inr, bool_beq, ltb→lt,
}
use rolebot_hse.Base.Order.{nat_order, text_order, pair_order}
use rolebot_hse.Base.Sort.{sort_by, sort_by-IsSorted}
use rolebot_hse.Base.Reorder.{IsDistinct, sort_by-IsDistinct}
use rolebot_hse.Base.Strict.{IsStrict, IsStrict-of_sorted, keep_if-IsStrict, keep_if_behind}
use rolebot_hse.Errors.{ok}
use rolebot_hse.Dict.{values}
use rolebot_hse.Domain.Event.{Datetime, Event, max_event_page_size}
use rolebot_hse.Store.Events.State.{Rows}
use rolebot_hse.Store.Events.Pages.{Cursor, cursor, behind, list_page}
use rolebot_hse.Application.UnarchivedEvents.{last_cursor, page_query, walk, unarchived_events}

-- The unarchived events in order of creation.
abbrev pub unarchived : Rows → List Event
unarchived rows =
    keep_if (λ e. bool_beq (is_some e.archived_at) false)
      (sort_by {K = Cursor} cursor (values rows))

-- One page of the walk is the next ten of what lies behind the cursor.
list_page_walk :
    (now : Datetime) (after : Option Cursor) (rows : Rows)
    → list_page now (page_query after) rows
      ≡ ok (take max_event_page_size (behind false after (unarchived rows)))
unfolding list_page
list_page_walk now none rows = refl
list_page_walk now (some c) rows = refl

unarchived-IsStrict :
    (rows : Rows)
    → IsDistinct {K = Cursor} cursor (values rows)
    → IsStrict {K = Cursor} cursor (unarchived rows)
unarchived-IsStrict rows d =
    keep_if-IsStrict cursor (λ e. bool_beq (is_some e.archived_at) false)
      (sort_by {K = Cursor} cursor (values rows))
      (IsStrict-of_sorted cursor (sort_by {K = Cursor} cursor (values rows))
        (sort_by-IsSorted cursor (values rows)) (sort_by-IsDistinct cursor cursor (values rows) d))

-- Behind the last event of a page that is not empty lies what follows the page.
behind_last :
    (after : Option Cursor) (before : List Event) (x : Event) (page rest : List Event)
    (all : List Event)
    → all ≡ before ++ (x ∷ page ++ rest)
    → IsStrict {K = Cursor} cursor all
    → behind false (last_cursor after (x ∷ page)) all ≡ rest
behind_last after before x [] rest all e s = rw e (keep_if_behind cursor before x rest (rw e at s))
behind_last after before x (y ∷ page) rest all e s =
    behind_last after (before ++ x ∷ []) y page rest all
      (e ∙ sym (append_assoc before (x ∷ []) (y ∷ page ++ rest))) s

-- A slice that is not full is the whole list.
take_short : {A : Type 0} (n : ℕ) (xs : List A) → ltb (length (take n xs)) n ≡ true → take n xs ≡ xs
take_short zero xs h = absurd (omega (arith, ltb→lt 0 0 h))
take_short (suc n) [] h = refl
take_short (suc n) (x ∷ xs) h = ap (λ l. x ∷ l) (take_short n xs (ground arith))

full_page :
    (page : List Event) (before rest all : List Event) (after : Option Cursor)
    → ltb (length page) max_event_page_size ≡ false
    → all ≡ before ++ (page ++ rest)
    → IsStrict {K = Cursor} cursor all
    → behind false (last_cursor after page) all ≡ rest
full_page [] before rest all after h e s = cc
full_page (x ∷ page) before rest all after h e s = behind_last after before x page rest all e s

-- One round of the loop.
walk_short :
    (fuel : ℕ) (now : Datetime) (rows : Rows) (after : Option Cursor) (found page : List Event)
    → list_page now (page_query after) rows ≡ ok page
    → ltb (length page) max_event_page_size ≡ true
    → walk (suc fuel) now rows after found ≡ some (ok (found ++ page))
unfolding walk
walk_short fuel now rows after found page h short = rw (h, walk) (rw short)

walk_full :
    (fuel : ℕ) (now : Datetime) (rows : Rows) (after : Option Cursor) (found page : List Event)
    → list_page now (page_query after) rows ≡ ok page
    → ltb (length page) max_event_page_size ≡ false
    → walk (suc fuel) now rows after found
      ≡ walk fuel now rows (last_cursor after page) (found ++ page)
unfolding walk
walk_full fuel now rows after found page h full = rw (h, walk) (rw full)

walk_lem :
    (fuel : ℕ) (now : Datetime) (rows : Rows) (after : Option Cursor) (found post : List Event)
    → IsStrict {K = Cursor} cursor (unarchived rows)
    → unarchived rows ≡ found ++ post
    → behind false after (unarchived rows) ≡ post
    → length post < fuel
    → walk fuel now rows after found ≡ some (ok (unarchived rows))
walk_lem zero now rows after found post s e b h = elim h [ ]
walk_lem (suc fuel) now rows after found post s e b h =
    let page = take max_event_page_size post in
    let rest = drop max_event_page_size post in
    let listed : list_page now (page_query after) rows ≡ ok page =
      list_page_walk now after rows ∙ ap (λ l. ok (take max_event_page_size l)) b in
    let parts : page ++ rest ≡ post = take-append-drop max_event_page_size post in
    elim (Bool-cases (ltb (length page) max_event_page_size)) [
      | inl short ↦
          walk_short fuel now rows after found page listed short
          ∙ ap (λ l. some (ok (found ++ l))) (take_short max_event_page_size post short)
          ∙ ap (λ l. some (ok l)) (sym e)
      | inr full ↦
          let e' : unarchived rows ≡ found ++ (page ++ rest) =
            e ∙ ap (λ l. found ++ l) (sym parts) in
          walk_full fuel now rows after found page listed full
          ∙ walk_lem fuel now rows (last_cursor after page) (found ++ page) rest s
              (e' ∙ sym (append_assoc found page rest))
              (full_page page found rest (unarchived rows) after full e' s)
              (omega (arith, ap length parts, length-append page rest, ltb_false page full))
    ]
  where
    ltb_false :
        (page : List Event)
        → ltb (length page) max_event_page_size ≡ false
        → max_event_page_size ≤ length page
    ltb_false page f = ground arith

-- When no two events share both their moment of creation and their id, and the fuel is more than
-- the number of unarchived events, the walk over pages of ten ends and returns all unarchived
-- events, each once, in order of creation.
pub unarchived_events_complete :
    (fuel : ℕ) (now : Datetime) (rows : Rows)
    → IsDistinct {K = Cursor} cursor (values rows)
    → length (unarchived rows) < fuel
    → unarchived_events fuel now rows ≡ some (ok (unarchived rows))
unfolding unarchived_events
unarchived_events_complete fuel now rows d h =
    walk_lem fuel now rows none [] (unarchived rows) (unarchived-IsStrict rows d) refl refl h
