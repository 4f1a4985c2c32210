-- ===== src/Store/Registrations/Sifted.antt =====
-- The queue of a game after `sift_waiting_to_end`.
use rolebot_hse.Base.{
  ℕ, ◌+◌, ◌≤◌, ◌<◌, String, ◌≡◌, refl, sym, ap, ◌∙◌, Option, none, some, List, [], ◌∷◌, ◌++◌, map,
  string_eq, nat_eq, option_eq, pair_eq, arith, keep_if, All,
}
use rolebot_hse.Base.Order.{nat_order, text_order, pair_order}
use rolebot_hse.Base.Sort.{sort_by, keep_if-sort_by}
use rolebot_hse.Domain.Enums.{attendance_eq}
use rolebot_hse.Domain.Event.{Datetime}
use rolebot_hse.Domain.Registration.{Registration}
use rolebot_hse.Domain.Queues.{queue_time, queue_key, is_active, active_queue}
use rolebot_hse.Store.Registrations.State.{Rows, event_rows}
use rolebot_hse.Store.Registrations.Enlist.{latest}
use rolebot_hse.Store.Registrations.Positions.{
  earliest, shift_waiting, shift_rows, queue_shift, sift_waiting_to_end,
}
use rolebot_hse.Store.Registrations.Signups.{keep_if-is_queued}
use rolebot_hse.Store.Registrations.Sift.{is_waiting, is_settled_row, IsTimed, sort-map_shift}

abbrev from : Option Datetime → Datetime
from none = 0
from (some t) = t

abbrev IsBetween : Datetime → Datetime → Registration → Type 0
IsBetween lo hi r = (lo ≤ queue_time r) × (queue_time r ≤ hi)

IsBetween-widen :
    (lo hi lo' hi' : Datetime) (rs : List Registration)
    → lo' ≤ lo
    → hi ≤ hi'
    → All (IsBetween lo hi) rs
    → All (IsBetween lo' hi') rs
IsBetween-widen lo hi lo' hi' [] p q h = tt
IsBetween-widen lo hi lo' hi' (r ∷ rs) p q h =
    ((omega (arith, h.0.0), omega (arith, h.0.1)), IsBetween-widen lo hi lo' hi' rs p q h.1)

-- The two bounds of a longer list are no narrower.
bounds-cons :
    (r s : Registration) (rs : List Registration)
    → (from (earliest (r ∷ s ∷ rs)) ≤ from (earliest (s ∷ rs)))
      × ((from (earliest (r ∷ s ∷ rs)) ≤ queue_time r)
          × ((queue_time r ≤ from (latest (r ∷ s ∷ rs)))
              × (from (latest (s ∷ rs)) ≤ from (latest (r ∷ s ∷ rs)))))
unfolding earliest latest
bounds-cons r s rs = (ground arith, (ground arith, (ground arith, ground arith)))

-- Every row stands between the earliest and the latest.
between :
    (rs : List Registration)
    → All (IsBetween (from (earliest rs)) (from (latest rs))) rs
      × (from (earliest rs) ≤ from (latest rs))
unfolding earliest latest
between [] = (tt, omega arith)
between (r ∷ []) = (((ground arith, ground arith), tt), ground arith)
between (r ∷ s ∷ rs) =
    let rest = between (s ∷ rs) in
    let (low, (low', (high, high'))) = bounds-cons r s rs in
    (
      (
        (low', high),
        IsBetween-widen (from (earliest (s ∷ rs))) (from (latest (s ∷ rs)))
            (from (earliest (r ∷ s ∷ rs))) (from (latest (r ∷ s ∷ rs))) (s ∷ rs) low high' rest.0,
      ),
      omega (arith, low', high),
    )

shift_active : (s : ℕ) (r : Registration) → is_active (shift_waiting s r) ≡ is_active r
shift_active s r = ground arith

active-shift_rows :
    (event_id : String) (s : ℕ) (rows : Rows)
    → keep_if is_active (event_rows event_id (shift_rows event_id s rows))
      ≡ map (shift_waiting s) (keep_if is_active (event_rows event_id rows))
unfolding event_rows shift_rows
active-shift_rows event_id s [] = refl
active-shift_rows event_id s (((e, k), r) ∷ rows) =
    ground (arith, active-shift_rows event_id s rows, shift_active s r)

-- How far the waiting rows are moved; nowhere, if nobody is in the queue.
abbrev pub shift_of : Option ℕ → ℕ
shift_of none = 0
shift_of (some shift) = shift

nobody : (rs : List Registration) → queue_shift rs ≡ none → rs ≡ []
unfolding queue_shift latest earliest
nobody [] h = refl
nobody (r ∷ rs) h = ground (arith, h)

wide_enough :
    (rs : List Registration) (shift : ℕ)
    → queue_shift rs ≡ some shift
    → from (latest rs) < from (earliest rs) + shift
unfolding queue_shift
wide_enough rs shift h = ground (arith, h, (between rs).1)

split_queue :
    (rs : List Registration) (shift : ℕ)
    → All IsTimed rs
    → queue_shift rs ≡ some shift
    → sort_by queue_key (map (shift_waiting shift) rs)
      ≡ keep_if is_settled_row (sort_by queue_key rs)
        ++ map (shift_waiting shift) (keep_if is_waiting (sort_by queue_key rs))
split_queue rs shift h e =
    sort-map_shift (from (earliest rs)) (from (latest rs)) shift (wide_enough rs shift e) rs h
      (between rs).0
    ∙ ap (λ l. l ++ map (shift_waiting shift) (sort_by queue_key (keep_if is_waiting rs)))
        (sym (keep_if-sort_by queue_key is_settled_row rs))
    ∙ ap (λ l. keep_if is_settled_row (sort_by queue_key rs) ++ map (shift_waiting shift) l)
        (sym (keep_if-sort_by queue_key is_waiting rs))

-- In a game whose rows have an answer time only with an answer, the queue after the sift is the
-- queue before without those who wait, in its order, followed by those who wait, in their order.
pub sift_waiting_to_end_lem :
    (event_id : String) (rows : Rows)
    → All IsTimed (keep_if is_active (event_rows event_id rows))
    → active_queue (event_rows event_id (sift_waiting_to_end event_id rows)) none
      ≡ keep_if is_settled_row (active_queue (event_rows event_id rows) none)
        ++ map
            (shift_waiting (shift_of (queue_shift (keep_if is_active (event_rows event_id rows)))))
            (keep_if is_waiting (active_queue (event_rows event_id rows) none))
unfolding active_queue sift_waiting_to_end
sift_waiting_to_end_lem event_id rows h =
    by_shift (queue_shift (keep_if is_active (event_rows event_id rows))) refl
  where
    by_shift :
        (o : Option ℕ)
        → queue_shift (keep_if is_active (event_rows event_id rows)) ≡ o
        → active_queue
            (event_rows event_id
              (elim o [ none ↦ rows | some shift ↦ shift_rows event_id shift rows ]))
            none
          ≡ keep_if is_settled_row (active_queue (event_rows event_id rows) none)
            ++ map
                (shift_waiting (shift_of o))
                (keep_if is_waiting (active_queue (event_rows event_id rows) none))
    by_shift none e =
        unfold active_queue sort_by in
        rw (
          keep_if-is_queued (event_rows event_id rows)
          ∙ nobody (keep_if is_active (event_rows event_id rows)) e)
    by_shift (some shift) e =
        let active = keep_if is_active (event_rows event_id rows) in
        unfold active_queue in
        ap (sort_by queue_key) (
          keep_if-is_queued (event_rows event_id (shift_rows event_id shift rows))
          ∙ active-shift_rows event_id shift rows)
        ∙ split_queue active shift h e
        ∙ ap
            (λ l.
              keep_if is_settled_row (sort_by queue_key l)
              ++ map (shift_waiting shift) (keep_if is_waiting (sort_by queue_key l)))
            (sym (keep_if-is_queued (event_rows event_id rows)))
