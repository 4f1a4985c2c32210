-- ===== src/Tests/Mutations.antt =====
-- Commands on the ball and the siege, with a master and a player, and showcases that do nothing.
use rolebot_hse.Base.{
  String, ◌≡◌, ◌≢◌, All, refl, true, ◌++◌, some, List, [], ◌∷◌, take, string_eq, nat_eq, pair_eq,
}
use rolebot_hse.Base.Text.{decimal, ◌&◌}
use rolebot_hse.Base.Order.{nat_order}
use rolebot_hse.Errors.{ok, err, Error}
use rolebot_hse.Dict.{put}
use rolebot_hse.Domain.Enums.{Platform, platform_eq, platform_value, Operation, AttendanceStatus}
use rolebot_hse.Domain.Event.{Event}
use rolebot_hse.Domain.Registration.{Registration}
use rolebot_hse.Domain.Command.{OrderedRegistrationCommand, CommandPayload}
use rolebot_hse.Store.Users.{identities_for_local_user}
use rolebot_hse.Application.Support.{done_if}
use rolebot_hse.Application.GameClosings.Actions.{system_command}
use rolebot_hse.Application.Mutations.{World, Services, with_events}
use rolebot_hse.Application.Mutations.Rights.{IsNoMaster, IsForeign}
use rolebot_hse.Domain.User.{Identity}
use rolebot_hse.Application.Mutations.Promotions.{promoted_row}
use rolebot_hse.Application.Mutations.Organiser.{opening_id}
use rolebot_hse.Application.Mutations.Apply.{apply}
use rolebot_hse.Application.Mutations.Guarded.{
  apply-archived, apply-unauthorised, apply-foreign_key,
}
use rolebot_hse.Application.Mutations.Entering.{without, to_list, promoted_row_lem}
use rolebot_hse.Application.Mutations.Opening.{IsSilent, opened_event, apply-stale_opening}
use rolebot_hse.Store.Events.Listing.{confirmation_opening_due, to_lifecycle}
use rolebot_hse.Application.Openings.{dispatch_due, opening_command, dispatch-apply}
use rolebot_hse.Tests.Distinct.{differ, are_distinct-IsDistinct}
use rolebot_hse.Tests.Services.{silent}
use rolebot_hse.Tests.Data.{game, player, registrations, users}

abbrev services : Services (Unit {0})
services = silent

-- The siege is in the archive, and the ball opens its confirmations at 300.
abbrev siege : Event
siege = record (game "siege" 20 7) { archived_at = some 800 }

abbrev ball : Event
ball = record (game "ball" 1 5) {
  confirmation_open_at = some 300;
  confirmation_deadline = some 400;
  registrations_migrated_at = some 6;
}

abbrev world : World (Unit {0})
world = record {
  events = record {
    rows = ("ball", ball) ∷ ("siege", siege) ∷ [];
    leaders = ("ball", (Platform.vk, 6) ∷ []) ∷ [];
  };
  registrations = record { participation_deliveries = []; rows = registrations };
  users = some users;
  rest = tt;
}

-- A command of a stranger.
abbrev by_stranger : String → Operation → OrderedRegistrationCommand
by_stranger event_id operation = record (system_command 905 event_id "op9" operation) {
  platform = Platform.vk;
  platform_user_id = 3;
  participant_key = some "vk:1";
}

apply-archived_example :
    apply services 910 (by_stranger "siege" Operation.cancel) world
    ≡ (err Error.domain_error, world)
apply-archived_example =
    apply-archived services 910 (by_stranger "siege" Operation.cancel) world siege refl refl refl

stranger-IsNoMaster :
    All (IsNoMaster services "ball" world) (identities_for_local_user (some users) (Platform.vk, 3))
unfolding identities_for_local_user
stranger-IsNoMaster = ((refl, refl), tt)

apply-unauthorised_example :
    apply services 910 (by_stranger "ball" Operation.close_event) world
    ≡ (err Error.domain_error, world)
apply-unauthorised_example =
    apply-unauthorised services 910 (by_stranger "ball" Operation.close_event) world ball refl refl
      refl stranger-IsNoMaster

stranger_key : ◌≢◌ {A = String} "vk:3" "vk:1"
stranger_key = differ "vk:3" "vk:1" refl

stranger_key-IsForeign :
    All
      (IsForeign
        (λ (i : Identity) (event_id : String). platform_value i.0 & ":" & decimal i.1)
        "ball"
        "vk:1")
      (identities_for_local_user (some users) (Platform.vk, 3))
unfolding identities_for_local_user platform_value decimal
stranger_key-IsForeign = (stranger_key, tt)

apply-foreign_key_example :
    apply services 910 (by_stranger "ball" Operation.cancel) world ≡ (err Error.domain_error, world)
apply-foreign_key_example =
    apply-foreign_key services 910 (by_stranger "ball" Operation.cancel) world ball "vk:1"
      (λ (i : Identity) (event_id : String). platform_value i.0 & ":" & decimal i.1) refl refl refl
      refl refl refl refl stranger_key-IsForeign

-- The opening of the ball, and one for an earlier moment.
abbrev opening : String → OrderedRegistrationCommand
opening id = record (system_command 305 "ball" id Operation.scheduled_open_confirmation) {
  payload = CommandPayload.confirmation_deadline 400;
}

abbrev stale : OrderedRegistrationCommand
stale = opening "larp-bot:scheduled-confirmation:ball:200"

apply-stale_opening_example : IsSilent services 305 world (apply services 305 stale world)
unfolding opening_id decimal
apply-stale_opening_example =
    apply-stale_opening services 305 stale world ball 400 refl refl refl refl refl

ball_is_due : confirmation_opening_due 305 ball ≡ true
unfolding confirmation_opening_due
ball_is_due = refl

dispatch-apply_example :
    (dispatch_due services 305 305 3 (some (to_lifecycle ball ∷ [])) world.events.rows []
      ≡ (opening_command services 305 "ball" 300 400 ∷ [], 1))
    × (apply services 305 (opening_command services 305 "ball" 300 400) world ≡ (
      ok (done_if "Установлен Статус «Подтверждение» по расписанию" true),
      with_events world (put "ball" (opened_event services 305 ball) world.events.rows),
    ))
dispatch-apply_example =
    dispatch-apply services 305 ball 300 400 305 2 world refl refl refl ball_is_due

-- A queue of three for two places, which its first player leaves.
abbrev queue : List Registration
queue =
    player "ball" "vk:1" AttendanceStatus.confirmed 10
    ∷ player "ball" "vk:2" AttendanceStatus.waiting 20
    ∷ player "ball" "vk:3" AttendanceStatus.waiting 30
    ∷ []

promoted_row_lem_example :
    take 2 (without "vk:1" queue)
    ≡ without "vk:1" (take 2 queue)
      ++ to_list (promoted_row 2 (some (player "ball" "vk:1" AttendanceStatus.confirmed 10)) queue)
promoted_row_lem_example =
    promoted_row_lem 2 (player "ball" "vk:1" AttendanceStatus.confirmed 10) queue
      (are_distinct-IsDistinct (λ (r : Registration). r.participant_key) queue refl) refl
