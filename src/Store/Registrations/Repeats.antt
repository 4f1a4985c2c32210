-- ===== src/Store/Registrations/Repeats.antt =====
-- A signup and an exchange of places that are delivered again.
use rolebot_hse.Base.{
  String, ◌≡◌, Bool, true, false, ◌&&◌, Option, none, some, ◌==◌, string_eq, pair_eq, arith,
  beq_refl, Bool-cases, inl, inr, refl,
}
use rolebot_hse.Dict.{get, get-put, adjust, get-adjust}
use rolebot_hse.Domain.Event.{Datetime}
use rolebot_hse.Domain.Registration.{Registration}
use rolebot_hse.Store.Registrations.State.{Rows}
use rolebot_hse.Store.Registrations.Enlist.{Enlistment, next_queue_time, enlist_found, enlist}
use rolebot_hse.Store.Registrations.Signups.{row_of}
use rolebot_hse.Store.Registrations.Positions.{moved_to, swap_found, swap_queue_positions}

-- There is a row, and the operation was the last to change it.
abbrev is_applied : String → Option Registration → Bool
is_applied op none = false
is_applied op (some r) = r.last_operation_id == op

-- The row of the signup after it, whether or not it was applied before.
applied-enlist_found :
    (now updated : Datetime) (event_id : String) (a : Enlistment) (rows : Rows)
    (o : Option Registration)
    → get (event_id, a.participant_key) rows ≡ o
    → is_applied a.operation_id
        (get (event_id, a.participant_key) (enlist_found now updated event_id a rows o).0)
      ≡ true
unfolding enlist_found
applied-enlist_found now updated event_id a rows none g =
    rw
      (get-put (event_id, a.participant_key) (event_id, a.participant_key)
        (row_of updated event_id a (next_queue_time now event_id rows) none) rows)
      (rw (beq_refl event_id, beq_refl a.participant_key, beq_refl a.operation_id))
applied-enlist_found now updated event_id a rows (some s) g =
    elim (Bool-cases (s.last_operation_id == a.operation_id)) [
      | inl e ↦ rw (e, g, is_applied) e
      | inr e ↦ rw e (
          rw (get-adjust (event_id, a.participant_key) (event_id, a.participant_key) _ rows)
            (rw (beq_refl event_id, beq_refl a.participant_key, g) (beq_refl a.operation_id)))
    ]

-- A signup that is delivered again, at any later time, changes nothing and says so.
pub enlist_twice :
    (now updated now' updated' : Datetime) (event_id : String) (a : Enlistment) (rows : Rows)
    → enlist now' updated' event_id a (enlist now updated event_id a rows).0
      ≡ ((enlist now updated event_id a rows).0, false)
unfolding enlist
enlist_twice now updated now' updated' event_id a rows =
    let rows' = (enlist now updated event_id a rows).0 in
    unchanged rows' (get (event_id, a.participant_key) rows') (
      applied-enlist_found now updated event_id a rows (get (event_id, a.participant_key) rows)
        refl)
  where
    unchanged :
        (rows' : Rows) (o : Option Registration)
        → is_applied a.operation_id o ≡ true
        → enlist_found now' updated' event_id a rows' o ≡ (rows', false)
    unchanged rows' none h = cc
    unchanged rows' (some r) h = unfold enlist_found in rw h

moved_to_stamps :
    (now time : Datetime) (op : String) (r : Registration)
    → (moved_to now time op r).last_operation_id ≡ op
moved_to_stamps now time op r = ground arith

module _ (event_id op : String) where
  swap_found_applied :
      (later : Datetime) (p : String) (t : Datetime) (d : String) (u : Datetime) (rows : Rows)
      (o o' : Option Registration)
      → is_applied op o ≡ true
      → is_applied op o' ≡ true
      → swap_found later event_id op p t d u rows o o' ≡ (rows, false)
  swap_found_applied later p t d u rows none o' h k = refl
  swap_found_applied later p t d u rows (some r) none h k = refl
  swap_found_applied later p t d u rows (some r) (some s) h k = rw (h, k)

  -- Both rows after the two assignments.
  applied-adjust_both :
      (p d : String) (f g : Registration → Registration) (rows : Rows) (r s : Registration)
      → ((x : Registration) → (f x).last_operation_id ≡ op)
      → ((x : Registration) → (g x).last_operation_id ≡ op)
      → get (event_id, p) rows ≡ some r
      → get (event_id, d) rows ≡ some s
      → (is_applied op (get (event_id, p) (adjust (event_id, d) g (adjust (event_id, p) f rows)))
          ≡ true)
        × (is_applied op (get (event_id, d) (adjust (event_id, d) g (adjust (event_id, p) f rows)))
            ≡ true)
  applied-adjust_both p d f g rows r s hf hg e e' = (
    rw
        (
          get-adjust (event_id, d) (event_id, p) g (adjust (event_id, p) f rows),
          get-adjust (event_id, p) (event_id, p) f rows,
        )
        (ground (arith, e, beq_refl event_id, beq_refl p, hf r, hg (f r), beq_refl op)),
    rw
        (
          get-adjust (event_id, d) (event_id, d) g (adjust (event_id, p) f rows),
          get-adjust (event_id, p) (event_id, d) f rows,
        )
        (ground (arith, e', beq_refl event_id, beq_refl d, hg s, hg (f s), beq_refl op)),
  )

  swap_found_again :
      (now later : Datetime) (p : String) (t : Datetime) (d : String) (u : Datetime) (rows : Rows)
      (o o' : Option Registration)
      → get (event_id, p) rows ≡ o
      → get (event_id, d) rows ≡ o'
      → swap_found later event_id op p t d u
          (swap_found now event_id op p t d u rows o o').0
          (get (event_id, p) (swap_found now event_id op p t d u rows o o').0)
          (get (event_id, d) (swap_found now event_id op p t d u rows o o').0)
        ≡ ((swap_found now event_id op p t d u rows o o').0, false)
  swap_found_again now later p t d u rows none o' e e' = rw e
  swap_found_again now later p t d u rows (some r) none e e' = rw (e, e')
  swap_found_again now later p t d u rows (some r) (some s) e e' =
      elim (Bool-cases (r.last_operation_id == op && s.last_operation_id == op)) [
        | inl q ↦ rw q (rw (e, e') (rw q))
        | inr q ↦
            let both =
              applied-adjust_both p d (moved_to now u op) (moved_to now t op) rows r s
                (moved_to_stamps now u op) (moved_to_stamps now t op) e e' in
            rw q (swap_found_applied later p t d u _ _ _ both.0 both.1)
      ]

-- An exchange of two places that is delivered again, at any later time, changes nothing and says
-- so, whether or not it found both rows.
pub swap_queue_positions_again :
    (now later : Datetime) (event_id op p : String) (t : Datetime) (d : String) (u : Datetime)
    (rows : Rows)
    → swap_queue_positions later event_id op p t d u
        (swap_queue_positions now event_id op p t d u rows).0
      ≡ ((swap_queue_positions now event_id op p t d u rows).0, false)
unfolding swap_queue_positions
swap_queue_positions_again now later event_id op p t d u rows =
    swap_found_again event_id op now later p t d u rows (get (event_id, p) rows)
      (get (event_id, d) rows) refl refl
