-- ===== src/Domain/Queues/Rosters.antt =====
-- The rosters of a game: how long they are, and that they share out the active queue.
use mathlib.Core.List.{Perm}
use rolebot_hse.Base.{
  ℕ, zero, suc, ◌≤◌, String, ◌≡◌, refl, ap, ◌∙◌, not, Option, none, some, List, [], ◌∷◌, ◌++◌,
  arith, string_eq, nat_eq, beq_refl, mem, take, drop, keep_if, length, All, keep_if_congr,
  length-take-le, length-append, take-append-drop,
}
use rolebot_hse.Base.{Bool, true, false, ◌&&◌}
use rolebot_hse.Base.Sort.{sort_by}
use rolebot_hse.Domain.Enums.{AttendanceStatus}
use mathlib.Core.Path.{subst}
use rolebot_hse.Base.Order.{nat_order, text_order, pair_order}
use rolebot_hse.Base.Sort.{IsSorted, sort_by-IsSorted, sort_by-perm}
use rolebot_hse.Base.Reorder.{Differs, IsDistinct, keep_if-IsDistinct, sort_by-IsDistinct}
use rolebot_hse.Domain.Event.{AnswerOption, Event, RegistrationQuestion, total_amount}
use rolebot_hse.Domain.Registration.{Registration}
use rolebot_hse.Domain.Queues.{
  queue_key, is_queued, active_queue, answer_rosters, main_roster, keys_of, reserve_roster,
}

-- Whether the row of a player who has signed up counts for the queue.
abbrev pub stays_in_queue : AttendanceStatus → Bool
stays_in_queue AttendanceStatus.waiting = true
stays_in_queue AttendanceStatus.confirmed = true
stays_in_queue AttendanceStatus.cancelled = false

-- Whether a row has the answer that a queue is for; the queue of the whole game is for every row.
abbrev pub has_answer : Option String → Option String → Bool
has_answer none _ = true
has_answer (some _) none = false
has_answer (some asked) (some given) = string_eq.beq given asked

abbrev pub counts : Option String → Registration → Bool
counts answer_id row = stays_in_queue row.attendance_status && has_answer answer_id row.answer_id

is_queued-counts :
    (answer_id : Option String) (row : Registration)
    → is_queued answer_id row ≡ counts answer_id row
is_queued-counts answer_id row = by_cases row.attendance_status row.answer_id answer_id refl refl
  where
    by_cases :
        (status : AttendanceStatus) (given asked : Option String)
        → row.attendance_status ≡ status
        → row.answer_id ≡ given
        → is_queued asked row ≡ counts asked row
    by_cases AttendanceStatus.cancelled given asked h k = rw h refl
    by_cases AttendanceStatus.waiting given none h k = rw h refl
    by_cases AttendanceStatus.waiting none (some a) h k = rw (h, k) refl
    by_cases AttendanceStatus.waiting (some b) (some a) h k = rw (h, k) refl
    by_cases AttendanceStatus.confirmed given none h k = rw h refl
    by_cases AttendanceStatus.confirmed none (some a) h k = rw (h, k) refl
    by_cases AttendanceStatus.confirmed (some b) (some a) h k = rw (h, k) refl

keep_if-same :
    (p q : Registration → Bool)
    → ((row : Registration) → p row ≡ q row)
    → (rows : List Registration) → keep_if p rows ≡ keep_if q rows
keep_if-same p q h [] = refl
keep_if-same p q h (row ∷ rows) = ground (arith, h row, keep_if-same p q h rows)

pub active_queue_lem :
    (rows : List Registration) (answer_id : Option String)
    → IsSorted queue_key (active_queue rows answer_id)
      × Perm (active_queue rows answer_id) (keep_if (counts answer_id) rows)
unfolding active_queue
active_queue_lem rows answer_id = (
  sort_by-IsSorted queue_key (keep_if (is_queued answer_id) rows),
  subst (Perm (sort_by queue_key (keep_if (is_queued answer_id) rows)))
      (keep_if-same (is_queued answer_id) (counts answer_id) (is_queued-counts answer_id) rows)
      (sort_by-perm queue_key (keep_if (is_queued answer_id) rows)),
)

-- The places of a game: `player_amount`, or those of all answers to its question.
abbrev pub places : Event → ℕ
places event = elim event.registration_question [
  | none ↦ event.player_amount
  | some q ↦ total_amount q.options
]

length-answer_rosters-le :
    (options : List AnswerOption) (rows : List Registration)
    → length (answer_rosters options rows) ≤ total_amount options
unfolding answer_rosters total_amount
length-answer_rosters-le [] rows = omega arith
length-answer_rosters-le (o ∷ options) rows = omega (
  arith,
  length-append (take o.player_amount (active_queue rows (some o.option_id)))
      (answer_rosters options rows),
  length-take-le o.player_amount (active_queue rows (some o.option_id)),
  length-answer_rosters-le options rows,
)

-- The main roster never has more rows than the game has places.
pub length-main_roster-le :
    (event : Event) (rows : List Registration) → length (main_roster event rows) ≤ places event
unfolding main_roster
length-main_roster-le event rows = by_question event.registration_question
  where
    by_question :
        (question : Option RegistrationQuestion)
        → length (elim question [
          | none ↦ take event.player_amount (active_queue rows none)
          | some q ↦ answer_rosters q.options rows
        ])
          ≤ elim question [ none ↦ event.player_amount | some q ↦ total_amount q.options ]
    by_question none = length-take-le event.player_amount (active_queue rows none)
    by_question (some q) = length-answer_rosters-le q.options rows

not-mem_nil : (xs : List Registration) → keep_if (λ row. not (mem row.participant_key [])) xs ≡ xs
not-mem_nil [] = refl
not-mem_nil (x ∷ xs) = ap (λ l. x ∷ l) (not-mem_nil xs)

abbrev name : Registration → String
name row = row.participant_key

-- Taking off those whose keys are among the first `n` leaves the others.
without_front :
    (n : ℕ) (xs : List Registration)
    → IsDistinct name xs
    → keep_if (λ row. not (mem row.participant_key (keys_of (take n xs)))) xs ≡ drop n xs
without_front zero xs h = not-mem_nil xs
without_front (suc n) [] h = refl
without_front (suc n) (x ∷ xs) h =
    rw (beq_refl x.participant_key, not, mem)
      (keep_if_congr _ (λ row. not (mem row.participant_key (keys_of (take n xs)))) xs
          (others xs h.0)
        ∙ without_front n xs h.1)
  where
    others :
        (ys : List Registration)
        → All (Differs name x) ys
        → All
            (λ row.
              not (mem row.participant_key (x.participant_key ∷ keys_of (take n xs)))
              ≡ not (mem row.participant_key (keys_of (take n xs))))
            ys
    others [] d = tt
    others (y ∷ ys) d =
        (ground (arith, string_eq.beq_iff y.participant_key x.participant_key, d.0), others ys d.1)

-- In a game without a question whose rows have different participant keys, the main roster
-- followed by the reserve is the active queue: nobody is lost, doubled or moved.
pub main_roster-append-reserve_roster :
    (event : Event) (rows : List Registration)
    → event.registration_question ≡ none
    → IsDistinct (λ (row : Registration). row.participant_key) rows
    → main_roster event rows ++ reserve_roster event rows ≡ active_queue rows none
unfolding main_roster reserve_roster
main_roster-append-reserve_roster event rows q h =
    rw (q, main_roster)
      (rw (without_front event.player_amount (active_queue rows none) (distinct))
        (take-append-drop event.player_amount (active_queue rows none)))
  where
    distinct : IsDistinct name (active_queue rows none)
    distinct =
        unfold active_queue in
        sort_by-IsDistinct name queue_key (keep_if (is_queued none) rows)
          (keep_if-IsDistinct name (is_queued none) rows h)
