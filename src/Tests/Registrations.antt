-- ===== src/Tests/Registrations.antt =====
-- Signups, confirmations, queues and rosters of the ball.
use mathlib.Core.List.{Perm}
use rolebot_hse.Base.{
  All, map, keep_if, ◌≤◌, ◌≡◌, refl, true, false, none, some, List, [], ◌∷◌, ◌++◌, length, leb, mem,
  string_eq, nat_eq, pair_eq,
}
use rolebot_hse.Base.Order.{nat_order, text_order, pair_order, text_lt}
use rolebot_hse.Base.Sort.{sort_by, insert_by, IsSorted}
use rolebot_hse.Base.Reorder.{IsDistinct}
use rolebot_hse.Errors.{ok}
use rolebot_hse.Dict.{get}
use rolebot_hse.Domain.Enums.{AttendanceStatus}
use rolebot_hse.Domain.Registration.{Registration}
use rolebot_hse.Domain.Queues.{
  queue_key, is_active, position_from, active_queue, keys_of, main_roster, reserve_roster,
  queue_position,
}
use rolebot_hse.Domain.Queues.Rosters.{
  counts, main_roster-append-reserve_roster, length-main_roster-le, active_queue_lem,
}
use rolebot_hse.Domain.Queues.Positions.{queue_position-main_roster}
use rolebot_hse.Store.Registrations.State.{Rows, event_rows}
use rolebot_hse.Store.Registrations.Enlist.{enlist, enlist_found, next_queue_time, latest}
use rolebot_hse.Store.Registrations.Signups.{row_of, enlist_last}
use rolebot_hse.Store.Registrations.Repeats.{enlist_twice, swap_queue_positions_again}
use rolebot_hse.Store.Registrations.Positions.{
  swap_queue_positions, shift_waiting, queue_shift, shift_rows, earliest, sift_waiting_to_end,
}
use rolebot_hse.Store.Registrations.Sift.{IsTimed, is_waiting, is_settled_row}
use rolebot_hse.Store.Registrations.Sifted.{shift_of, sift_waiting_to_end_lem}
use rolebot_hse.Store.Registrations.Updates.{confirmed_by, cancelled_by}
use rolebot_hse.Store.Registrations.Linked.{change_each, confirm_linked}
use rolebot_hse.Store.Registrations.Retries.{
  after_confirm_linked, get-confirm_linked, confirm_linked_again,
}
use rolebot_hse.Tests.Distinct.{are_distinct-IsDistinct}
use rolebot_hse.Tests.Data.{game, player, registrations, signup}

abbrev ball_rows : List Registration
ball_rows = event_rows "ball" registrations

-- The player who left comes back, behind the two others.
signup-queue :
    keys_of (active_queue (event_rows "ball" (enlist 15 16 "ball" signup registrations).0) none)
    ≡ "vk:3" ∷ "vk:1" ∷ "vk:2" ∷ []
unfolding active_queue sort_by insert_by event_rows enlist enlist_found next_queue_time latest
    text_lt
signup-queue = refl

enlist_last_example :
    active_queue (event_rows "ball" (enlist 15 16 "ball" signup registrations).0) none
    ≡ active_queue (event_rows "ball" registrations) none
      ++ row_of 16 "ball" signup
          (next_queue_time 15 "ball" registrations)
          (get ("ball", "vk:2") registrations)
        ∷ []
enlist_last_example = enlist_last 15 16 "ball" signup registrations refl

enlist_twice_example :
    enlist 50 51 "ball" signup (enlist 15 16 "ball" signup registrations).0
    ≡ ((enlist 15 16 "ball" signup registrations).0, false)
enlist_twice_example = enlist_twice 15 16 50 51 "ball" signup registrations

swap_queue_positions_again_example :
    swap_queue_positions 50 "ball" "op8" "vk:1" 30 "vk:3" 20
      (swap_queue_positions 40 "ball" "op8" "vk:1" 30 "vk:3" 20 registrations).0
    ≡ ((swap_queue_positions 40 "ball" "op8" "vk:1" 30 "vk:3" 20 registrations).0, false)
swap_queue_positions_again_example =
    swap_queue_positions_again 40 50 "ball" "op8" "vk:1" 30 "vk:3" 20 registrations

-- A confirmation for the ball that gives up the place in the siege.
abbrev confirmed : Rows
confirmed =
    elim (confirm_linked 40 "ball" "op9" ("vk:3" ∷ "tg:3" ∷ []) "эльф" (some "siege") ("vk:1" ∷ [])
      registrations) [ ok (rows, _) ↦ rows | _ ↦ [] ]

confirmation :
    confirm_linked 40 "ball" "op9"
      ("vk:3" ∷ "tg:3" ∷ [])
      "эльф"
      (some "siege")
      ("vk:1" ∷ [])
      registrations
    ≡ ok (confirmed, true)
unfolding confirm_linked change_each confirmed_by cancelled_by
confirmation = refl

confirm_linked_again_example :
    confirm_linked 60 "ball" "op9"
      ("vk:3" ∷ "tg:3" ∷ [])
      "эльф"
      (some "siege")
      ("vk:1" ∷ [])
      confirmed
    ≡ ok (confirmed, false)
confirm_linked_again_example =
    confirm_linked_again 40 60 "ball" "op9" ("vk:3" ∷ "tg:3" ∷ []) "эльф" (some "siege")
      ("vk:1" ∷ []) registrations confirmed true confirmation

get-confirm_linked_example :
    get ("siege", "vk:1") confirmed
    ≡ after_confirm_linked 40 "ball" "op9"
        ("vk:3" ∷ "tg:3" ∷ [])
        "эльф"
        (some "siege")
        ("vk:1" ∷ [])
        ("siege", "vk:1")
        (get ("siege", "vk:1") registrations)
get-confirm_linked_example =
    get-confirm_linked 40 "ball" "op9" ("vk:3" ∷ "tg:3" ∷ []) "эльф" (some "siege") ("vk:1" ∷ [])
      registrations confirmed true "siege" "vk:1" confirmation

active_queue_lem_example :
    IsSorted queue_key (active_queue ball_rows none)
    × Perm (active_queue ball_rows none) (keep_if (counts none) ball_rows)
active_queue_lem_example = active_queue_lem ball_rows none

length-main_roster-le_example : length (main_roster (game "ball" 1 5) ball_rows) ≤ 1
length-main_roster-le_example = length-main_roster-le (game "ball" 1 5) ball_rows

ball-IsDistinct : IsDistinct (λ (row : Registration). row.participant_key) ball_rows
unfolding event_rows
ball-IsDistinct =
    are_distinct-IsDistinct (λ (row : Registration). row.participant_key) ball_rows refl

main_roster-append-reserve_roster_example :
    main_roster (game "ball" 1 5) ball_rows ++ reserve_roster (game "ball" 1 5) ball_rows
    ≡ active_queue ball_rows none
main_roster-append-reserve_roster_example =
    main_roster-append-reserve_roster (game "ball" 1 5) ball_rows refl ball-IsDistinct

abbrev late : Registration
late = player "ball" "vk:1" AttendanceStatus.confirmed 30

late-position : queue_position (game "ball" 1 5) ball_rows late ≡ some 2
unfolding queue_position position_from active_queue sort_by insert_by event_rows text_lt
late-position = refl

queue_position-main_roster_example :
    leb 2 1 ≡ mem "vk:1" (keys_of (main_roster (game "ball" 1 5) ball_rows))
queue_position-main_roster_example =
    queue_position-main_roster (game "ball" 1 5) ball_rows late 2 refl late-position

ball-IsTimed : All IsTimed (keep_if is_active ball_rows)
unfolding event_rows
ball-IsTimed = (refl, (refl, tt))

sift_waiting_to_end_lem_example :
    active_queue (event_rows "ball" (sift_waiting_to_end "ball" registrations)) none
    ≡ keep_if is_settled_row (active_queue ball_rows none)
      ++ map
          (shift_waiting (shift_of (queue_shift (keep_if is_active ball_rows))))
          (keep_if is_waiting (active_queue ball_rows none))
sift_waiting_to_end_lem_example = sift_waiting_to_end_lem "ball" registrations ball-IsTimed

-- The player who waits goes behind the one who confirmed.
sifted-keys :
    keys_of (active_queue (event_rows "ball" (sift_waiting_to_end "ball" registrations)) none)
    ≡ "vk:1" ∷ "vk:3" ∷ []
unfolding active_queue sort_by insert_by event_rows sift_waiting_to_end queue_shift shift_rows
    latest earliest text_lt
sifted-keys = refl
