-- ===== src/Application/Mutations/Entering.antt =====
-- The player whom a departure moves up, and the main roster after it.
use rolebot_hse.Base.{
  ℕ, suc, zero, String, ◌≡◌, refl, sym, ap, ◌∙◌, true, false, not, ◌&&◌, Option, none, some, List,
  [], ◌∷◌, ◌++◌, length, take, drop, keep_if, All, ltb, string_eq, arith, Bool-cases, inl, inr,
  ◌==◌, if◌then◌else◌,
}
use rolebot_hse.Base.Reorder.{IsDistinct, Differs}
use rolebot_hse.Domain.Registration.{Registration}
use rolebot_hse.Domain.Queues.{position_from, is_active}
use rolebot_hse.Application.Mutations.Promotions.{promoted_row, first_of}

-- The queue without a player.
abbrev pub without : String → List Registration → List Registration
without key rows = keep_if (λ row. not (row.participant_key == key)) rows

abbrev pub to_list : Option Registration → List Registration
to_list none = []
to_list (some row) = row ∷ []

-- Who moves up when the row at this place leaves.
entering : ℕ → Option ℕ → List Registration → Option Registration
entering capacity none rows = none
entering capacity (some index) rows =
    if ltb index capacity && ltb capacity (length rows) then first_of (drop capacity rows) else none

abbrev shifted : Option ℕ → Option ℕ
shifted none = none
shifted (some i) = some (suc i)

position_from-suc :
    (n : ℕ) (key : String) (rows : List Registration)
    → position_from (suc n) key rows ≡ shifted (position_from n key rows)
unfolding position_from
position_from-suc n key [] = refl
position_from-suc n key (row ∷ rows) = elim (Bool-cases (row.participant_key == key)) [
  | inl e ↦ rw e refl
  | inr e ↦ rw e (position_from-suc (suc n) key rows)
]

entering-suc :
    (n : ℕ) (p : Option ℕ) (row : Registration) (rows : List Registration)
    → entering (suc n) (shifted p) (row ∷ rows) ≡ entering n p rows
unfolding entering
entering-suc n none row rows = refl
entering-suc n (some i) row rows = ground arith

take-suc :
    (n : ℕ) (rows : List Registration)
    → take (suc n) rows
      ≡ take n rows ++ to_list (if ltb n (length rows) then first_of (drop n rows) else none)
take-suc zero [] = refl
take-suc zero (row ∷ rows) = ground arith
take-suc (suc n) [] = ground arith
take-suc (suc n) (row ∷ rows) = ground (arith, take-suc n rows)

abbrev IsAbsent : String → List Registration → Type 0
IsAbsent key rows = All (λ (r : Registration). (r.participant_key == key) ≡ false) rows

others-IsAbsent :
    (key : String) (row : Registration) (rows : List Registration)
    → (row.participant_key == key) ≡ true
    → All (Differs (λ (r : Registration). r.participant_key) row) rows
    → IsAbsent key rows
others-IsAbsent key row [] e h = tt
others-IsAbsent key row (x ∷ xs) e h = (
  ground (
    arith,
    string_eq.beq_iff x.participant_key key,
    string_eq.beq_iff row.participant_key key,
    e,
    h.0,
  ),
  others-IsAbsent key row xs e h.1,
)

take-IsAbsent :
    (key : String) (n : ℕ) (rows : List Registration)
    → IsAbsent key rows
    → IsAbsent key (take n rows)
take-IsAbsent key zero rows h = tt
take-IsAbsent key (suc n) [] h = tt
take-IsAbsent key (suc n) (row ∷ rows) h = (h.0, take-IsAbsent key n rows h.1)

-- A player who is not in the queue leaves it as it is.
without_absent :
    (key : String) (rows : List Registration) → IsAbsent key rows → without key rows ≡ rows
without_absent key [] h = refl
without_absent key (x ∷ xs) h = rw h.0 (ap (λ l. x ∷ l) (without_absent key xs h.1))

entering-zero : (p : Option ℕ) (rows : List Registration) → entering 0 p rows ≡ none
unfolding entering
entering-zero none rows = refl
entering-zero (some i) rows = ground arith

entering-first :
    (n : ℕ) (row : Registration) (rows : List Registration)
    → entering (suc n) (some 0) (row ∷ rows)
      ≡ (if ltb n (length rows) then first_of (drop n rows) else none)
unfolding entering
entering-first n row rows = ground arith

take-without :
    (capacity : ℕ) (key : String) (rows : List Registration)
    → IsDistinct (λ (r : Registration). r.participant_key) rows
    → take capacity (without key rows)
      ≡ without key (take capacity rows)
        ++ to_list (entering capacity (position_from 0 key rows) rows)
unfolding position_from
take-without zero key [] d = ap to_list (sym (entering-zero none []))
take-without (suc n) key [] d = unfold entering in refl
take-without zero key (row ∷ rows) d =
    ap to_list (sym (entering-zero (position_from 0 key (row ∷ rows)) (row ∷ rows)))
take-without (suc n) key (row ∷ rows) d = elim (Bool-cases (row.participant_key == key)) [
  | inl e ↦
      let away = others-IsAbsent key row rows e d.0 in
      rw
        (
          e,
          without_absent key rows away,
          without_absent key (take n rows) (take-IsAbsent key n rows away),
          entering-first n row rows,
        )
        (take-suc n rows)
  | inr e ↦
      rw (e, position_from-suc 0 key rows, entering-suc n (position_from 0 key rows) row rows)
        (ap (λ l. row ∷ l) (take-without n key rows d.1))
]

entering-elim :
    (capacity : ℕ) (p : Option ℕ) (rows : List Registration)
    → entering capacity p rows ≡ elim p [
      | none ↦ none
      | some index ↦
          if ltb index capacity && ltb capacity (length rows)
          then first_of (drop capacity rows)
          else none
    ]
unfolding entering
entering-elim capacity none rows = refl
entering-elim capacity (some i) rows = refl

-- In a queue of players with different keys, the player who is told to have moved up when an active
-- player leaves it is exactly who enters the main roster: the roster of the queue that is left is the
-- old one without the player who left, with the one who moved up, if any, at its end.
pub promoted_row_lem :
    (capacity : ℕ) (r : Registration) (active : List Registration)
    → IsDistinct (λ (x : Registration). x.participant_key) active
    → is_active r ≡ true
    → take capacity (without r.participant_key active)
      ≡ without r.participant_key (take capacity active)
        ++ to_list (promoted_row capacity (some r) active)
unfolding promoted_row
promoted_row_lem capacity r active d a = rw a (
    take-without capacity r.participant_key active d
    ∙ ap (λ o. without r.participant_key (take capacity active) ++ to_list o)
        (entering-elim capacity (position_from 0 r.participant_key active) active))
