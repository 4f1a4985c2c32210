-- ===== src/Store/Registrations/Signups.antt =====
-- What `enlist` does to the queue of a game, and that a signup delivered twice counts once.
use rolebot_hse.Base.{
  ◌≤◌, ◌<◌, String, ◌≡◌, refl, ap, ◌∙◌, Bool, true, false, Option, none, some, List, [], ◌∷◌, ◌++◌,
  ◌==◌, string_eq, nat_eq, option_eq, pair_eq, arith, ◌&&◌, not, ◌!=◌, keep_if_congr, beq_refl,
  keep_if, All, Bool-cases, inl, inr, if◌then◌else◌,
}
use rolebot_hse.Base.Order.{nat_order, text_order, pair_order}
use rolebot_hse.Base.Sort.{sort_by, insert_by}
use rolebot_hse.Base.Reorder.{insert_by_comm, insert_by_last, All-sort_by}
use rolebot_hse.Dict.{get, put, adjust}
use rolebot_hse.Domain.Enums.{AttendanceStatus, attendance_eq}
use rolebot_hse.Domain.Event.{Datetime}
use rolebot_hse.Domain.Registration.{Registration}
use rolebot_hse.Domain.Queues.{queue_time, queue_key, is_active, is_queued, active_queue}
use rolebot_hse.Store.Registrations.State.{Key, Rows, event_rows}
use rolebot_hse.Store.Registrations.Enlist.{
  Enlistment, latest, after_latest, next_queue_time, stamp, new_registration, enlist_again,
  enlist_found, enlist,
}

abbrev queue_of : String → Rows → List Registration
queue_of event_id rows = active_queue (event_rows event_id rows) none

abbrev IsBefore : Datetime → Registration → Type 0
IsBefore time r = queue_time r < time

IsBefore-trans :
    (t u : Datetime) (rs : List Registration) → t ≤ u → All (IsBefore t) rs → All (IsBefore u) rs
IsBefore-trans t u [] h k = tt
IsBefore-trans t u (r ∷ rs) h k = (omega (arith, k.0), IsBefore-trans t u rs h k.1)

-- The queue time given out is later than that of every row it was taken from.
IsBefore-next :
    (now : Datetime) (rs : List Registration) → All (IsBefore (after_latest now (latest rs))) rs
unfolding latest
IsBefore-next now [] = tt
IsBefore-next now (r ∷ rs) = (
  ground arith,
  IsBefore-trans (after_latest now (latest rs)) (after_latest now (latest (r ∷ rs))) rs
      (ground arith) (IsBefore-next now rs),
)

abbrev active_of : String → Rows → List Registration
active_of event_id rows = keep_if (is_queued none) (event_rows event_id rows)

is_queued-none : (r : Registration) → is_queued none r ≡ is_active r
is_queued-none r = ground arith

abbrev push : Bool → Registration → List Registration → List Registration
push b s rs = if b then s ∷ rs else rs

active_of-cons :
    (event_id e k : String) (s : Registration) (rows : Rows)
    → active_of event_id (((e, k), s) ∷ rows)
      ≡ push (e == event_id && is_active s) s (active_of event_id rows)
unfolding event_rows
active_of-cons event_id e k s rows = ground arith

-- A row put where there was none, or where a cancelled one was changed.
module _ (event_id key : String) (r : Registration) (active : is_active r ≡ true) where
  abbrev Above : List Registration → Type 0
  Above rs = All (IsBefore (queue_time r)) rs

  Above-push :
      (b : Bool) (x : Registration) (rs : List Registration) → Above (push b x rs) → Above rs
  Above-push true x rs h = h.1
  Above-push false x rs h = h

  insert-push :
      (b : Bool) (s : Registration) (xs ys : List Registration)
      → Above (push b s ys)
      → sort_by queue_key xs ≡ insert_by queue_key r (sort_by queue_key ys)
      → sort_by queue_key (push b s xs) ≡ insert_by queue_key r (sort_by queue_key (push b s ys))
  unfolding sort_by
  insert-push false s xs ys a h = h
  insert-push true s xs ys a h =
      ap (insert_by queue_key s) h
      ∙ insert_by_comm queue_key s r (sort_by queue_key ys)
          (λ q. ground (arith, a.0, ap (λ (p : Datetime × String). p.0) q))

  put_new :
      (rows : Rows)
      → get (event_id, key) rows ≡ none
      → Above (active_of event_id rows)
      → sort_by queue_key (active_of event_id (put (event_id, key) r rows))
        ≡ insert_by queue_key r (sort_by queue_key (active_of event_id rows))
  unfolding event_rows sort_by insert_by
  put_new [] g h = rw (active_of-cons event_id event_id key r []) (rw (beq_refl event_id, active))
  put_new (((e, k), s) ∷ rows) g h = elim (Bool-cases (◌==◌ {A = Key} (e, k) (event_id, key))) [
    | inl q ↦ ground (arith, g, q)
    | inr q ↦
        rw
          (
            q,
            active_of-cons event_id e k s (put (event_id, key) r rows),
            active_of-cons event_id e k s rows,
          )
          (insert-push (e == event_id && is_active s) s
            (active_of event_id (put (event_id, key) r rows)) (active_of event_id rows)
            (rw (← (active_of-cons event_id e k s rows)) h)
            (put_new rows (ground (arith, g, q)) (
              Above-push (e == event_id && is_active s) s (active_of event_id rows)
                (rw (← (active_of-cons event_id e k s rows)) h))))
  ]

  adjust_cancelled :
      (rows : Rows) (r0 : Registration) (f : Registration → Registration)
      → get (event_id, key) rows ≡ some r0
      → is_active r0 ≡ false
      → f r0 ≡ r
      → Above (active_of event_id rows)
      → sort_by queue_key (active_of event_id (adjust (event_id, key) f rows))
        ≡ insert_by queue_key r (sort_by queue_key (active_of event_id rows))
  unfolding event_rows sort_by insert_by
  adjust_cancelled [] r0 f g c a h = cc
  adjust_cancelled (((e, k), s) ∷ rows) r0 f g c a h =
      elim (Bool-cases (◌==◌ {A = Key} (e, k) (event_id, key))) [
        | inl q ↦
            let same : s ≡ r0 = ground (arith, g, q) in
            let own : e ≡ event_id = ground (arith, q, string_eq.beq_iff e event_id) in
            rw (q, active_of-cons event_id e k (f s) rows, active_of-cons event_id e k s rows)
              (rw (same, own, a, active, c, beq_refl event_id))
        | inr q ↦
            rw
              (
                q,
                active_of-cons event_id e k s (adjust (event_id, key) f rows),
                active_of-cons event_id e k s rows,
              )
              (insert-push (e == event_id && is_active s) s
                (active_of event_id (adjust (event_id, key) f rows)) (active_of event_id rows)
                (rw (← (active_of-cons event_id e k s rows)) h)
                (adjust_cancelled rows r0 f (ground (arith, g, q)) c a (
                  Above-push (e == event_id && is_active s) s (active_of event_id rows)
                    (rw (← (active_of-cons event_id e k s rows)) h))))
      ]

All-of {κ} :
    (P : Registration → Type κ) → ((r : Registration) → P r) → (rs : List Registration) → All P rs
All-of P h [] = tt
All-of P h (r ∷ rs) = (h r, All-of P h rs)

after_key :
    (r : Registration) (rs : List Registration)
    → All (IsBefore (queue_time r)) rs
    → All (λ y. pair_order.lt (queue_key y) (queue_key r) ≡ true) rs
after_key r [] h = tt
after_key r (s ∷ rs) h = (ground (arith, h.0), after_key r rs h.1)

pub keep_if-is_queued :
    (rs : List Registration) → keep_if (is_queued none) rs ≡ keep_if is_active rs
keep_if-is_queued rs = keep_if_congr (is_queued none) is_active rs (All-of _ is_queued-none rs)

-- A row with the next queue time is later than the queue.
above_next :
    (now : Datetime) (event_id : String) (r : Registration) (rows : Rows)
    → queue_time r ≡ next_queue_time now event_id rows
    → All (IsBefore (queue_time r)) (active_of event_id rows)
unfolding next_queue_time
above_next now event_id r rows t =
    rw (keep_if-is_queued (event_rows event_id rows), t)
      (IsBefore-next now (keep_if is_active (event_rows event_id rows)))

-- A row that is put in by its key goes last.
queue_end :
    (event_id : String) (r : Registration) (rows rows' : Rows)
    → All (IsBefore (queue_time r)) (active_of event_id rows)
    → sort_by queue_key (active_of event_id rows')
      ≡ insert_by queue_key r (sort_by queue_key (active_of event_id rows))
    → queue_of event_id rows' ≡ queue_of event_id rows ++ r ∷ []
unfolding active_queue
queue_end event_id r rows rows' t h =
    h
    ∙ insert_by_last queue_key r (sort_by queue_key (active_of event_id rows)) (
        All-sort_by (λ y. pair_order.lt (queue_key y) (queue_key r) ≡ true) queue_key
          (active_of event_id rows) (after_key r (active_of event_id rows) t))

-- Whether a signup is one of a participant who is not in the queue and that was not applied before.
abbrev pub is_out : String → Option Registration → Bool
is_out operation_id none = true
is_out operation_id (some r) = not (is_active r) && r.last_operation_id != operation_id

-- The row of such a participant after the signup.
abbrev pub row_of : Datetime → String → Enlistment → Datetime → Option Registration → Registration
row_of updated event_id a time none = stamp a time updated (new_registration event_id a time)
row_of updated event_id a time (some r) = stamp a time updated (enlist_again a time r)

enlist_found_last :
    (now updated : Datetime) (event_id : String) (a : Enlistment) (rows : Rows)
    (o : Option Registration)
    → get (event_id, a.participant_key) rows ≡ o
    → is_out a.operation_id o ≡ true
    → active_queue (event_rows event_id (enlist_found now updated event_id a rows o).0) none
      ≡ active_queue (event_rows event_id rows) none
        ++ row_of updated event_id a (next_queue_time now event_id rows) o ∷ []
unfolding enlist_found
enlist_found_last now updated event_id a rows none g h =
    let r = row_of updated event_id a (next_queue_time now event_id rows) none in
    let t = above_next now event_id r rows (ground arith) in
    queue_end event_id r rows (put (event_id, a.participant_key) r rows) t
      (put_new event_id a.participant_key r refl rows g t)
enlist_found_last now updated event_id a rows (some s) g h =
    let time = next_queue_time now event_id rows in
    let f : Registration → Registration = λ x. stamp a time updated (enlist_again a time x) in
    let cancelled : (s.attendance_status == AttendanceStatus.cancelled) ≡ true =
      ground (arith, h) in
    let fresh : (s.last_operation_id == a.operation_id) ≡ false = ground (arith, h) in
    let inactive : is_active s ≡ false = rw cancelled in
    let active : is_active (f s) ≡ true = rw cancelled in
    let t = above_next now event_id (f s) rows (rw cancelled (ground arith)) in
    rw fresh (
      ap
        (λ (b : Bool).
          active_queue
            (event_rows event_id (
              adjust (event_id, a.participant_key)
                (λ x.
                  stamp a (if b then time else now) updated
                    (enlist_again a (if b then time else now) x))
                rows))
            none)
        cancelled
      ∙ queue_end event_id (f s) rows (adjust (event_id, a.participant_key) f rows) t
          (adjust_cancelled event_id a.participant_key (f s) active rows s f g inactive refl t))

-- A signup of a participant who has no row in the game, or whose row is cancelled by another
-- operation, puts the participant at the end of the active queue of the game, behind everyone who
-- is there, and leaves the others in their order.
pub enlist_last :
    (now updated : Datetime) (event_id : String) (a : Enlistment) (rows : Rows)
    → is_out a.operation_id (get (event_id, a.participant_key) rows) ≡ true
    → active_queue (event_rows event_id (enlist now updated event_id a rows).0) none
      ≡ active_queue (event_rows event_id rows) none
        ++ row_of updated event_id a
            (next_queue_time now event_id rows)
            (get (event_id, a.participant_key) rows)
          ∷ []
unfolding enlist
enlist_last now updated event_id a rows h =
    enlist_found_last now updated event_id a rows (get (event_id, a.participant_key) rows) refl h
