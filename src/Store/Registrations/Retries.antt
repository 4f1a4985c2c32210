-- ===== src/Store/Registrations/Retries.antt =====
-- What the methods on linked rows do to each row, and that a redelivered operation changes nothing.
use rolebot_hse.Domain.Enums.{AttendanceStatus}
use rolebot_hse.Base.{
  String, ◌≡◌, refl, Bool, true, false, ◌&&◌, ◌||◌, Option, none, some, List, [], ◌∷◌, arith, ◌==◌,
  string_eq, pair_eq, bool_eq, option_eq, beq_refl, mem, All, Bool-cases, inl, inr, if◌then◌else◌,
}
use rolebot_hse.Errors.{ok}
use rolebot_hse.Dict.{get, map_option, get-adjust}
use rolebot_hse.Domain.Event.{Datetime}
use rolebot_hse.Domain.Registration.{Registration}
use rolebot_hse.Store.Registrations.State.{Key, Rows}
use rolebot_hse.Store.Registrations.Updates.{unless_applied, confirmed_by, cancelled_by}
use rolebot_hse.Store.Registrations.Linked.{change_each, confirm_linked, cancel_linked}

-- One row, if the operation has not changed it already.
abbrev pub once : String → (Registration → Registration) → Registration → Registration
once operation_id f r = if r.last_operation_id == operation_id then r else f r

get-unless_applied :
    (op : String) (k j : Key) (f : Registration → Registration) (rows : Rows)
    → get j (unless_applied op k f rows (get k rows)).0
      ≡ (if k == j then map_option (once op f) (get j rows) else get j rows)
get-unless_applied op k j f rows = elim (Bool-cases (k == j)) [
  | inl e ↦ rw (← (pair_eq.beq_iff k j).0 e) (ground (arith, get-adjust k k f rows, beq_refl k))
  | inr e ↦ ground (arith, get-adjust k j f rows, e)
]

module _ (op : String) (f : Registration → Registration)
    (stamps : (r : Registration) → (f r).last_operation_id ≡ op) where
  once-once :
      (o : Option Registration)
      → map_option (once op f) (map_option (once op f) o) ≡ map_option (once op f) o
  once-once none = refl
  once-once (some r) = ground (
    arith,
    stamps r,
    string_eq.beq_iff r.last_operation_id op,
    string_eq.beq_iff (f r).last_operation_id op,
  )

  -- The loop changes the rows of the listed participants of its game once, and no other row.
  pub get-change_each :
      (e : String) (ks : List String) (rows : Rows) (c : Bool) (x j : String)
      → get (x, j) (change_each e op f ks rows c).0
        ≡ (if x == e && mem j ks then map_option (once op f) (get (x, j) rows) else get (x, j) rows)
  unfolding change_each
  get-change_each e [] rows c x j = ground arith
  get-change_each e (k ∷ ks) rows c x j =
      let step = unless_applied op (e, k) f rows (get (e, k) rows) in
      rw (get-change_each e ks step.0 (c || step.1) x j) (
        rw (get-unless_applied op (e, k) (x, j) f rows) (
          ground (
            arith,
            string_eq.beq_iff e x,
            string_eq.beq_iff x e,
            string_eq.beq_iff k j,
            string_eq.beq_iff j k,
            once-once (get (x, j) rows),
          )))

-- The row, if there is one, was last changed by the operation.
abbrev pub is_settled : String → Option Registration → Bool
is_settled op none = true
is_settled op (some r) = r.last_operation_id == op

-- Once every listed row was changed by the operation, the loop does nothing.
pub change_each_settled :
    (op : String) (f : Registration → Registration) (e : String) (ks : List String) (rows : Rows)
    (c : Bool)
    → All (λ k. is_settled op (get (e, k) rows) ≡ true) ks
    → change_each e op f ks rows c ≡ (rows, c)
unfolding change_each
change_each_settled op f e [] rows c h = refl
change_each_settled op f e (k ∷ ks) rows c h =
    rw (unchanged (get (e, k) rows) h.0)
      (rw (or_false c) (change_each_settled op f e ks rows c h.1))
  where
    unchanged :
        (o : Option Registration)
        → is_settled op o ≡ true
        → unless_applied op (e, k) f rows o ≡ (rows, false)
    unchanged none s = refl
    unchanged (some r) s = rw s

    or_false : (b : Bool) → (b || false) ≡ b
    or_false true = refl
    or_false false = refl

pub All-of_mem {κ} :
    (P : String → Type κ) (ks : List String) → ((k : String) → mem k ks ≡ true → P k) → All P ks
All-of_mem P [] h = tt
All-of_mem P (k ∷ ks) h =
    (h k (rw (beq_refl k, mem)), All-of_mem P ks (λ j m. h j (ground (arith, m))))

module _ (op : String) (f : Registration → Registration)
    (stamps : (r : Registration) → (f r).last_operation_id ≡ op) where
  settled_once : (o : Option Registration) → is_settled op (map_option (once op f) o) ≡ true
  settled_once none = refl
  settled_once (some r) = ground (arith, stamps r, string_eq.beq_iff (f r).last_operation_id op)

  -- After the loop every listed row is settled, and what was settled before still is.
  pub settled-change_each :
      (e : String) (ks : List String) (rows : Rows) (c : Bool) (k : String)
      → mem k ks ≡ true
      → is_settled op (get (e, k) (change_each e op f ks rows c).0) ≡ true
  settled-change_each e ks rows c k m =
      rw (get-change_each op f stamps e ks rows c e k)
        (rw (beq_refl e, m) (settled_once (get (e, k) rows)))

  pub settled-change_each_kept :
      (e : String) (ks : List String) (rows : Rows) (c : Bool) (x j : String)
      → is_settled op (get (x, j) rows) ≡ true
      → is_settled op (get (x, j) (change_each e op f ks rows c).0) ≡ true
  settled-change_each_kept e ks rows c x j h =
      rw (get-change_each op f stamps e ks rows c x j)
        (ground (arith, settled_once (get (x, j) rows), h))

-- A second run of the loop, even with another change, finds nothing to do.
change_each_again :
    (op : String) (f g : Registration → Registration)
    → ((r : Registration) → (f r).last_operation_id ≡ op)
    → (e : String) (ks : List String) (rows : Rows) (c c' : Bool)
    → change_each e op g ks (change_each e op f ks rows c).0 c'
      ≡ ((change_each e op f ks rows c).0, c')
change_each_again op f g stamps e ks rows c c' =
    change_each_settled op g e ks (change_each e op f ks rows c).0 c'
      (All-of_mem _ ks (settled-change_each op f stamps e ks rows c))

confirmed_by_stamps :
    (now : Datetime) (op wish : String) (r : Registration)
    → (confirmed_by now op wish r).last_operation_id ≡ op
unfolding confirmed_by
confirmed_by_stamps now op wish r = refl

cancelled_by_stamps :
    (now : Datetime) (op : String) (r : Registration)
    → (cancelled_by now op r).last_operation_id ≡ op
unfolding cancelled_by
cancelled_by_stamps now op r = refl

-- The row of a player who took part in a confirmation, written out field by field.
abbrev pub as_confirmed : Datetime → String → String → Registration → Registration
as_confirmed now op wish r = record r {
  attendance_status = AttendanceStatus.confirmed;
  character_wish = wish;
  last_operation_id = op;
  updated_at = now;
}

-- The row of the player in the other game, which keeps its wish.
abbrev pub as_cancelled : Datetime → String → Registration → Registration
as_cancelled now op r = record r {
  attendance_status = AttendanceStatus.cancelled;
  last_operation_id = op;
  updated_at = now;
}

-- A row after `confirm_linked`.
abbrev pub after_confirm_linked :
    Datetime
    → String
    → String
    → List String
    → String
    → Option String
    → List String
    → Key
    → Option Registration
    → Option Registration
after_confirm_linked now e op ks wish replaced rks (x, j) o =
    if x == e && mem j ks
    then map_option (once op (as_confirmed now op wish)) o
    else if replaced == some x && mem j rks
    then map_option (once op (as_cancelled now op)) o
    else o

-- When `confirm_linked` returns, each listed row of the game has become one of a confirmed
-- participation with the wish given, each listed row of the replaced game one of a cancelled
-- participation with its wish as it was, both stamped with the operation and the moment. A row that
-- carries the stamp of this operation from before is as it was, a row that is not there is not made,
-- and no other row has changed.
pub get-confirm_linked :
    (now : Datetime) (e op : String) (ks : List String) (wish : String) (replaced : Option String)
    (rks : List String) (rows rows' : Rows) (changed : Bool) (x j : String)
    → confirm_linked now e op ks wish replaced rks rows ≡ ok (rows', changed)
    → get (x, j) rows' ≡ after_confirm_linked now e op ks wish replaced rks (x, j) (get (x, j) rows)
unfolding confirm_linked confirmed_by cancelled_by
get-confirm_linked now e op ks wish none rks rows rows' changed x j h = ground (
  arith,
  get-change_each op (confirmed_by now op wish) (confirmed_by_stamps now op wish) e ks rows false x
      j,
)
get-confirm_linked now e op ks wish (some r) rks rows rows' changed x j h =
    let first = change_each r op (cancelled_by now op) rks rows false in
    ground (
      arith,
      get-change_each op (confirmed_by now op wish) (confirmed_by_stamps now op wish) e ks first.0
          first.1 x j,
      get-change_each op (cancelled_by now op) (cancelled_by_stamps now op) r rks rows false x j,
      string_eq.beq_iff x e,
      string_eq.beq_iff r e,
      string_eq.beq_iff x r,
      string_eq.beq_iff r x,
    )

-- A confirmation that is delivered again, at any later time, changes nothing and says so.
pub confirm_linked_again :
    (now later : Datetime) (e op : String) (ks : List String) (wish : String)
    (replaced : Option String) (rks : List String) (rows rows' : Rows) (changed : Bool)
    → confirm_linked now e op ks wish replaced rks rows ≡ ok (rows', changed)
    → confirm_linked later e op ks wish replaced rks rows' ≡ ok (rows', false)
unfolding confirm_linked
confirm_linked_again now later e op ks wish none rks rows rows' changed h = ground (
  arith,
  change_each_again op (confirmed_by now op wish) (confirmed_by later op wish)
      (confirmed_by_stamps now op wish) e ks rows false false,
)
confirm_linked_again now later e op ks wish (some r) rks rows rows' changed h =
    let first = change_each r op (cancelled_by now op) rks rows false in
    let second = change_each e op (confirmed_by now op wish) ks first.0 first.1 in
    ground (
      arith,
      change_each_settled op (cancelled_by later op) r rks second.0 false (
          All-of_mem _ rks (λ k m.
            settled-change_each_kept op (confirmed_by now op wish) (confirmed_by_stamps now op wish)
              e ks first.0 first.1 r k
              (settled-change_each op (cancelled_by now op) (cancelled_by_stamps now op) r rks rows
                false k m))),
      change_each_again op (confirmed_by now op wish) (confirmed_by later op wish)
          (confirmed_by_stamps now op wish) e ks first.0 first.1 false,
    )

-- A cancellation that is delivered again, at any later time, changes nothing and says so.
cancel_linked_again :
    (now later : Datetime) (e op : String) (ks : List String) (rows : Rows)
    → cancel_linked later e op ks (cancel_linked now e op ks rows).0
      ≡ ((cancel_linked now e op ks rows).0, false)
unfolding cancel_linked
cancel_linked_again now later e op ks rows =
    change_each_again op (cancelled_by now op) (cancelled_by later op) (cancelled_by_stamps now op)
      e ks rows false false
