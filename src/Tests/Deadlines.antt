-- ===== src/Tests/Deadlines.antt =====
-- The deadlines of a game on the first of June 2024, a Saturday, asked for on that evening.
use rolebot_hse.Base.{ℕ, ◌≡◌, refl, some, arith}
use rolebot_hse.Application.Deadlines.{
  hours, closest_friday_18, tuesday_before_game_18, IsNextFriday, closest_friday_18_lem,
}

closest_friday_18_lem_example :
    (a : ℕ) × ((closest_friday_18 (739038, hours 20) ≡ some (a, hours 18))
      × IsNextFriday (739038, hours 20) a)
closest_friday_18_lem_example = closest_friday_18_lem 739038 (hours 20) (omega arith) (omega arith)

-- The Tuesday is the 28th of May, and the Friday the 7th of June.
tuesday_run : tuesday_before_game_18 739038 ≡ some (739034, hours 18)
unfolding tuesday_before_game_18
tuesday_run = refl

friday_run : closest_friday_18 (739038, hours 20) ≡ some (739044, hours 18)
unfolding closest_friday_18
friday_run = refl
