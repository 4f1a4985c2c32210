-- ===== src/Application/Mutations/Passes.antt =====
-- The tables of passes after a change: `_refresh_pass_table` and `_refresh_daily_pass_table`.
use rolebot_hse.Base.{
  String, Bool, true, false, ◌||◌, Option, none, some, List, is_none, if◌then◌else◌,
}
use rolebot_hse.Errors.{Error}
use rolebot_hse.Domain.Event.{Date, Event}
use rolebot_hse.Domain.Registration.{Registration}
use rolebot_hse.Application.Effects.{Effect, ◌>>=◌, ◌>>◌, pure, raise}
use rolebot_hse.Application.Mutations.{World, Services}

module _ {S : Type 0} (services : Services S) where
  -- A write that needs the users and the secret of the keys.
  abbrev pub with_profiles : Effect (World S) (Unit {0}) → Effect (World S) (Unit {0})
  with_profiles m w =
      (if is_none w.users || is_none services.participant_key then raise Error.runtime_error else m)
        w

  abbrev pub refresh_daily : Date → Bool → Effect (World S) (Unit {0})
  refresh_daily game_date false = pure tt
  refresh_daily game_date true =
      with_profiles
        (services.replace_daily_pass_table (services.daily_pass_table_path game_date) game_date)

  unfoldable pub refresh_daily_pass_table : Option Date → Effect (World S) (Unit {0})
  refresh_daily_pass_table none = pure tt
  refresh_daily_pass_table (some game_date) =
      services.pass_table_exists (services.daily_pass_table_path game_date)
      >>= refresh_daily game_date

  abbrev pub refresh_own :
      Event → Option (List Registration) → Option String → Effect (World S) (Unit {0})
  refresh_own event rows none = pure tt
  refresh_own event rows (some path) = with_profiles (services.replace_pass_table path event rows)

  unfoldable pub refresh_pass_table :
      Event → Option (List Registration) → Effect (World S) (Unit {0})
  unfolding refresh_daily_pass_table
  refresh_pass_table event rows =
      refresh_own event rows event.pass_table_resource_path
      >> refresh_daily_pass_table event.game_date
