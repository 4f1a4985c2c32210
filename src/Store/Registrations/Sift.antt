-- ===== src/Store/Registrations/Sift.antt =====
-- What `sift_waiting_to_end` does to the queue of a game.
use rolebot_hse.Base.{
  ℕ, ◌+◌, ◌≤◌, ◌<◌, String, ◌≡◌, refl, sym, ap, ◌∙◌, Bool, true, false, not, ◌||◌, List, [], ◌∷◌,
  ◌++◌, map, ◌==◌, string_eq, nat_eq, option_eq, pair_eq, arith, is_some, is_none, keep_if, All,
  Bool-cases, inl, inr,
}
use rolebot_hse.Base.Order.{nat_order, text_order, pair_order}
use rolebot_hse.Base.Sort.{sort_by, insert_by, All-keep_if}
use rolebot_hse.Base.Reorder.{All-sort_by}
use rolebot_hse.Domain.Enums.{AttendanceStatus, attendance_eq}
use rolebot_hse.Domain.Event.{Datetime}
use rolebot_hse.Domain.Registration.{Registration}
use rolebot_hse.Domain.Queues.{queue_time, queue_key}
use rolebot_hse.Store.Registrations.Positions.{shift_waiting}

abbrev pub is_waiting : Registration → Bool
is_waiting r = r.attendance_status == AttendanceStatus.waiting

abbrev pub is_settled_row : Registration → Bool
is_settled_row r = not (is_waiting r)

-- An answer time is there only with an answer.
abbrev pub IsTimed : Registration → Type 0
IsTimed r = (is_some r.answer_id || is_none r.answer_queue_at) ≡ true

queue_time-shift :
    (s : ℕ) (r : Registration)
    → IsTimed r
    → is_waiting r ≡ true
    → queue_time (shift_waiting s r) ≡ queue_time r + s
queue_time-shift s r h w = ground (arith, h, w)

shift_kept : (s : ℕ) (r : Registration) → is_waiting r ≡ false → shift_waiting s r ≡ r
shift_kept s r w = rw w

-- Inserting in front of rows that are all later stays in the first part.
insert-append_front :
    (r : Registration) (xs ys : List Registration)
    → All (λ y. pair_order.lt (queue_key y) (queue_key r) ≡ false) ys
    → insert_by queue_key r (xs ++ ys) ≡ insert_by queue_key r xs ++ ys
unfolding insert_by
insert-append_front r [] [] h = refl
insert-append_front r [] (y ∷ ys) h = rw h.0
insert-append_front r (x ∷ xs) ys h =
    elim (Bool-cases (pair_order.lt (queue_key x) (queue_key r))) [
      | inl e ↦ rw e (ap (λ l. x ∷ l) (insert-append_front r xs ys h))
      | inr e ↦ rw e
    ]

-- Inserting behind rows that are all earlier goes to the second part.
insert-append_back :
    (r : Registration) (xs ys : List Registration)
    → All (λ x. pair_order.lt (queue_key x) (queue_key r) ≡ true) xs
    → insert_by queue_key r (xs ++ ys) ≡ xs ++ insert_by queue_key r ys
unfolding insert_by
insert-append_back r [] ys h = refl
insert-append_back r (x ∷ xs) ys h = rw h.0 (ap (λ l. x ∷ l) (insert-append_back r xs ys h.1))

abbrev IsLate : Registration → Type 0
IsLate r = IsTimed r × (is_waiting r ≡ true)

queue_key-shift :
    (s : ℕ) (r : Registration)
    → IsLate r
    → queue_key (shift_waiting s r) ≡ (queue_time r + s, r.participant_key)
queue_key-shift s r h = ground (arith, h.0, h.1)

lt-shift :
    (s : ℕ) (y r : Registration)
    → IsLate y
    → IsLate r
    → pair_order.lt (queue_key (shift_waiting s y)) (queue_key (shift_waiting s r))
      ≡ pair_order.lt (queue_key y) (queue_key r)
lt-shift s y r h k =
    ap (λ (p : Datetime × String). pair_order.lt p (queue_key (shift_waiting s r)))
      (queue_key-shift s y h)
    ∙ ap (λ (p : Datetime × String). pair_order.lt (queue_time y + s, y.participant_key) p)
        (queue_key-shift s r k)
    ∙ ground arith

-- The shift keeps the order of waiting rows.
insert-map_shift :
    (s : ℕ) (r : Registration) (ys : List Registration)
    → IsLate r
    → All IsLate ys
    → insert_by queue_key (shift_waiting s r) (map (shift_waiting s) ys)
      ≡ map (shift_waiting s) (insert_by queue_key r ys)
unfolding insert_by
insert-map_shift s r [] h k = refl
insert-map_shift s r (y ∷ ys) h k = elim (Bool-cases (pair_order.lt (queue_key y) (queue_key r))) [
  | inl e ↦
      rw (lt-shift s y r k.0 h)
        (rw e (ap (λ l. shift_waiting s y ∷ l) (insert-map_shift s r ys h k.1)))
  | inr e ↦ rw (lt-shift s y r k.0 h) (rw e)
]

module _ (lo hi s : ℕ) (wide : hi < lo + s) where
  -- A row with a queue time between the two.
  abbrev IsWithin : Registration → Type 0
  IsWithin r = (lo ≤ queue_time r) × (queue_time r ≤ hi)

  settled-before :
      (x r : Registration)
      → IsWithin x
      → IsWithin r
      → IsLate r
      → pair_order.lt (queue_key x) (queue_key (shift_waiting s r)) ≡ true
  settled-before x r h k l =
      ap (λ (p : Datetime × String). pair_order.lt (queue_key x) p) (queue_key-shift s r l)
      ∙ ground (arith, h, k, wide)

  not_before_settled :
      (x r : Registration)
      → IsWithin x
      → IsWithin r
      → IsLate r
      → pair_order.lt (queue_key (shift_waiting s r)) (queue_key x) ≡ false
  not_before_settled x r h k l =
      ap (λ (p : Datetime × String). pair_order.lt p (queue_key x)) (queue_key-shift s r l)
      ∙ ground (arith, h, k, wide)

  All-before :
      (r : Registration) (xs : List Registration)
      → IsWithin r
      → IsLate r
      → All IsWithin xs
      → All (λ x. pair_order.lt (queue_key x) (queue_key (shift_waiting s r)) ≡ true) xs
  All-before r [] h l k = tt
  All-before r (x ∷ xs) h l k = (settled-before x r k.0 h l, All-before r xs h l k.1)

  All-none_before :
      (x : Registration) (ys : List Registration)
      → IsWithin x
      → All IsWithin ys
      → All IsLate ys
      → All (λ y. pair_order.lt (queue_key y) (queue_key x) ≡ false) (map (shift_waiting s) ys)
  All-none_before x [] h k l = tt
  All-none_before x (y ∷ ys) h k l =
      (not_before_settled x y h k.0 l.0, All-none_before x ys h k.1 l.1)

  IsLate-kept : (rs : List Registration) → All IsTimed rs → All IsLate (keep_if is_waiting rs)
  IsLate-kept [] h = tt
  IsLate-kept (r ∷ rs) h = elim (Bool-cases (is_waiting r)) [
    | inl e ↦ rw e ((h.0, e), IsLate-kept rs h.1)
    | inr e ↦ rw e (IsLate-kept rs h.1)
  ]

  -- Sorting after the shift: the settled rows in their order, then the waiting ones in theirs.
  pub sort-map_shift :
      (rs : List Registration)
      → All IsTimed rs
      → All IsWithin rs
      → sort_by queue_key (map (shift_waiting s) rs)
        ≡ sort_by queue_key (keep_if is_settled_row rs)
          ++ map (shift_waiting s) (sort_by queue_key (keep_if is_waiting rs))
  unfolding sort_by
  sort-map_shift [] h k = refl
  sort-map_shift (r ∷ rs) h k =
      let settled = sort_by queue_key (keep_if is_settled_row rs) in
      let waiting = sort_by queue_key (keep_if is_waiting rs) in
      let late : All IsLate waiting =
        All-sort_by IsLate queue_key (keep_if is_waiting rs) (IsLate-kept rs h.1) in
      elim (Bool-cases (is_waiting r)) [
        | inl e ↦
            let ks : keep_if is_settled_row (r ∷ rs) ≡ keep_if is_settled_row rs = rw e in
            let kw : keep_if is_waiting (r ∷ rs) ≡ r ∷ keep_if is_waiting rs = rw e in
            ap (insert_by queue_key (shift_waiting s r)) (sort-map_shift rs h.1 k.1)
            ∙ (insert-append_back (shift_waiting s r) settled (map (shift_waiting s) waiting) (
                  All-before r settled k.0 (h.0, e)
                    (All-sort_by IsWithin queue_key (keep_if is_settled_row rs)
                      (All-keep_if IsWithin is_settled_row rs k.1)))
                ∙ ap (λ l. settled ++ l) (insert-map_shift s r waiting (h.0, e) late)
                ∙ sym (
                    ap
                      (λ l.
                        sort_by queue_key l
                        ++ map (shift_waiting s) (insert_by queue_key r waiting))
                      ks)
                ∙ sym (
                    ap
                      (λ l.
                        sort_by queue_key (keep_if is_settled_row (r ∷ rs))
                        ++ map (shift_waiting s) (sort_by queue_key l))
                      kw))
        | inr e ↦
            let ks : keep_if is_settled_row (r ∷ rs) ≡ r ∷ keep_if is_settled_row rs = rw e in
            let kw : keep_if is_waiting (r ∷ rs) ≡ keep_if is_waiting rs = rw e in
            ap (λ x. insert_by queue_key x (sort_by queue_key (map (shift_waiting s) rs)))
              (shift_kept s r e)
            ∙ ap (insert_by queue_key r) (sort-map_shift rs h.1 k.1)
            ∙ (insert-append_front r settled (map (shift_waiting s) waiting) (
                  All-none_before r waiting k.0
                    (All-sort_by IsWithin queue_key (keep_if is_waiting rs)
                      (All-keep_if IsWithin is_waiting rs k.1))
                    late)
                ∙ sym (ap (λ l. sort_by queue_key l ++ map (shift_waiting s) waiting) ks)
                ∙ sym (
                    ap
                      (λ l.
                        sort_by queue_key (keep_if is_settled_row (r ∷ rs))
                        ++ map (shift_waiting s) (sort_by queue_key l))
                      kw))
      ]
