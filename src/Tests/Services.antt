-- ===== src/Tests/Services.antt =====
-- Services that do nothing, over any state.
use rolebot_hse.Base.{String, true, false, none, some, [], nat_eq, ◌==◌}
use rolebot_hse.Base.Text.{decimal, ◌&◌}
use rolebot_hse.Errors.{ok}
use rolebot_hse.Domain.Enums.{platform_value}
use rolebot_hse.Domain.User.{Identity}
use rolebot_hse.Application.Effects.{Effect}
use rolebot_hse.Application.Mutations.{World, Services}

abbrev nothing : {S : Type 0} → Effect (World S) (Unit {0})
nothing w = (ok tt, w)

-- One administrator, and keys that name the identity.
abbrev pub silent : {S : Type 0} → Services S
silent = record {
  participant_key =
      some (λ (i : Identity) (event_id : String). platform_value i.0 & ":" & decimal i.1);
  is_admin = some (λ (i : Identity). i.1 == 100);
  fields_ok = λ _. true;
  uuid5 = λ s. s;
  isoformat = decimal;
  moscow_date = λ t. t;
  legacy_registration_imports = false;
  read_legacy_registrations = λ _ w. (ok [], w);
  mirrors_google_tables = false;
  event_table_path = λ event_id _. event_id;
  create_public_event_workbook = λ _ _ _ w. (ok none, w);
  replace = λ _ _ w. (ok none, w);
  delete_event_workbook = λ _. nothing;
  delete_pass_table = λ _. nothing;
  delete_achievement_presentation = λ _. nothing;
  replace_pass_table = λ _ _ _. nothing;
  daily_pass_table_path = decimal;
  pass_table_exists = λ _ w. (ok false, w);
  replace_daily_pass_table = λ _ _. nothing;
  player_registrations_on_date = λ _ _ _ _ _ w. (ok [], w);
  surname_and_name = λ s. s;
  confirmation_button = λ event_id. record { label = "confirm"; value = event_id };
  removeprefix_at = λ s. s;
  event_reference = λ name _. name;
  enlistment_success_text = λ _ _ _ _ _. "enlisted";
  confirmation_success_text = λ _ _ _ _. "confirmed";
}
