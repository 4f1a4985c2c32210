-- ===== src/Application/Deadlines.antt =====
-- larp_bot/application/deadlines.py: the moments that a master picks by the day of the week. The texts
-- that are read and written there, by a regular expression and `strptime`, are not modelled.
use rolebot_hse.Base.{
  ℕ, ◌+◌, ◌-◌, ◌%◌, ◌*◌, ◌≤◌, ◌<◌, ◌≡◌, refl, Bool, ◌&&◌, ◌||◌, Option, none, some, ltb, leb,
  nat_beq, arith, if◌then◌else◌, Bool-cases, inl, inr,
}

-- A date by its ordinal, where 1 is Monday, the first of January of the year 1, and a moment in Moscow
-- as the date and the microseconds since its midnight.
abbrev pub Local : Type 0
Local = ℕ × ℕ

abbrev pub max_ordinal : ℕ
max_ordinal = 3652059

-- `date.weekday()`: Monday is 0.
abbrev pub weekday : ℕ → ℕ
weekday d = (d + 6) % 7

abbrev pub hours : ℕ → ℕ
hours n = n * 3600000000

-- A sum with a `timedelta`; `none` is an `OverflowError`.
abbrev pub add_days : ℕ → ℕ → Option ℕ
add_days d n = if leb (d + n) max_ordinal then some (d + n) else none

abbrev pub sub_days : ℕ → ℕ → Option ℕ
sub_days d n = if ltb n d then some (d - n) else none

abbrev pub at_hour : ℕ → Option ℕ → Option Local
at_hour n none = none
at_hour n (some d) = some (d, hours n)

-- `(k - weekday) % 7`, of numbers that may be negative before the remainder
abbrev pub days_until : ℕ → ℕ → ℕ
days_until k d = (k + 7 - weekday d) % 7

unfoldable pub closest_thursday_19 : Local → Option Local
closest_thursday_19 (d, t) = at_hour 19 (add_days d (days_until 3 d))

-- `candidate <= local_now`
abbrev pub is_past : Local → Local → Bool
is_past (a, s) (d, t) = ltb a d || (nat_beq a d && leb s t)

abbrev pub not_past : Local → Option Local → Option Local
not_past now none = none
not_past now (some (a, s)) = if is_past (a, s) now then at_hour 18 (add_days a 7) else some (a, s)

unfoldable pub closest_friday_18 : Local → Option Local
closest_friday_18 (d, t) = not_past (d, t) (at_hour 18 (add_days d (days_until 4 d)))

unfoldable pub next_saturday_game_date : Local → Option ℕ
next_saturday_game_date (d, t) = add_days d (days_until 5 d + 7)

unfoldable pub next_night_03 : ℕ → Option Local
next_night_03 game_date = at_hour 3 (add_days game_date 1)

-- `x or 7`
abbrev pub or_seven : ℕ → ℕ
or_seven n = if nat_beq n 0 then 7 else n

unfoldable pub tuesday_before_game_18 : ℕ → Option Local
tuesday_before_game_18 game_date =
    at_hour 18 (sub_days game_date (or_seven ((weekday game_date + 6) % 7)))

friday_of : (d : ℕ) → weekday (d + days_until 4 d) ≡ 4
friday_of d = omega arith

tuesday_of : (d n : ℕ) → n ≡ or_seven ((weekday d + 6) % 7) → n < d → weekday (d - n) ≡ 1
tuesday_of d n e h = ground (arith, e)

back_bounds : (n : ℕ) → (0 < or_seven (n % 7)) × (or_seven (n % 7) ≤ 7)
back_bounds n = (ground arith, ground arith)

sub_days_lem : (d n : ℕ) → n < d → sub_days d n ≡ some (d - n)
sub_days_lem d n h = ground arith

add_days_lem : (d n : ℕ) → d + n ≤ max_ordinal → add_days d n ≡ some (d + n)
add_days_lem d n h = ground arith

-- The Tuesday before a game, of a day after the first week of the calendar, is a Tuesday, at 18:00,
-- and before the day of the game by a week at most.
tuesday_before_game_18_lem :
    (d : ℕ)
    → 7 < d
    → (a : ℕ) × ((tuesday_before_game_18 d ≡ some (a, hours 18))
        × ((weekday a ≡ 1) × ((a < d) × (d ≤ a + 7))))
unfolding tuesday_before_game_18
tuesday_before_game_18_lem d h =
    let n = or_seven ((weekday d + 6) % 7) in
    let b = back_bounds (weekday d + 6) in
    (
      d - n,
      (
        rw (sub_days_lem d n (omega (arith, b.1, h))) refl,
        (
          tuesday_of d n refl (omega (arith, b.1, h)),
          (omega (arith, b.0, b.1, h), omega (arith, b.0, b.1, h)),
        ),
      ),
    )

days_until-bound : (k d : ℕ) → days_until k d ≤ 6
days_until-bound k d = omega arith

week-same : (a k : ℕ) → weekday a ≡ k → weekday (a + 7) ≡ k
week-same a k h = omega (arith, h)

-- What holds of the answer `a` to the moment `(d, t)`.
abbrev pub IsNextFriday : Local → ℕ → Type 0
IsNextFriday (d, t) a =
    (weekday a ≡ 4)
    × ((hours 24 * d + t < hours 24 * a + hours 18)
        × (hours 24 * a + hours 18 ≤ hours 24 * (d + 7) + t))

next_friday :
    (d t a : ℕ)
    → t < hours 24
    → weekday a ≡ 4
    → d ≤ a
    → a ≤ d + 6
    → a + 7 ≤ max_ordinal
    → (b : ℕ) × ((not_past (d, t) (some (a, hours 18)) ≡ some (b, hours 18))
        × IsNextFriday (d, t) b)
next_friday d t a u f l m o = elim (Bool-cases (is_past (a, hours 18) (d, t))) [
  | inl p ↦ (
    a + 7,
    (rw (p, add_days_lem a 7 o) refl, (week-same a 4 f, (ground (arith, p), ground (arith, p)))),
  )
  | inr p ↦ (a, (rw p refl, (f, (ground (arith, p), ground (arith, p)))))
]

-- The closest Friday, of a day not in the last fortnight of the calendar, is a Friday, at 18:00, later
-- than the moment it is asked for, by a week at most.
pub closest_friday_18_lem :
    (d t : ℕ)
    → t < hours 24
    → d + 13 ≤ max_ordinal
    → (a : ℕ) × ((closest_friday_18 (d, t) ≡ some (a, hours 18)) × IsNextFriday (d, t) a)
unfolding closest_friday_18
closest_friday_18_lem d t u h =
    let b = days_until-bound 4 d in
    rw (add_days_lem d (days_until 4 d) (omega (arith, b, h))) (
      next_friday d t (d + days_until 4 d) u (friday_of d) (omega arith) (omega (arith, b))
        (omega (arith, b, h)))
