-- ===== src/Application/Mutations/Apply.antt =====
-- `OrderedMutationService.apply`: the dispatch of a command, with the checks that come before.
use rolebot_hse.Base.{
  String, not, ◌&&◌, Option, none, some, List, [], ◌∷◌, is_some, mem, ltb, length, string_eq, ◌==◌,
  ◌!=◌, if◌then◌else◌,
}
use rolebot_hse.Domain.Enums.{Operation, operation_eq, EventStatus, status_eq}
use rolebot_hse.Domain.Event.{Datetime, Event}
use rolebot_hse.Domain.User.{Identity}
use rolebot_hse.Domain.Registration.{Registration}
use rolebot_hse.Domain.Command.{OrderedRegistrationCommand}
use rolebot_hse.Domain.Queues.{keys_of}
use rolebot_hse.Application.Effects.{Effect, ◌>>=◌, ◌>>◌, pure}
use rolebot_hse.Application.Support.{MutationResult, done}
use rolebot_hse.Application.Mutations.{World, Services, get_event, refuse, fail_assert}
use rolebot_hse.Application.Mutations.Catalog.{ensure_migrated}
use rolebot_hse.Application.Mutations.Access.{require_event_leader, actor_registrations, keys_in}
use rolebot_hse.Application.Mutations.Passes.{refresh_daily_pass_table}
use rolebot_hse.Application.Mutations.Organiser.{
  scheduled_open_confirmation, unarchive_event, delete_archived, administer,
}
use rolebot_hse.Application.Mutations.Rosters.{
  remove_waiting_participants, promote_reserve_participant,
}
use rolebot_hse.Application.Mutations.Signup.{
  update_profile_of, enlist_player, effective_registration,
}
use rolebot_hse.Application.Mutations.Player.{
  Actor, remove_participant, change_character_wish, change_answer, change_co_player_wish,
  cancel_participation,
}
use rolebot_hse.Application.Mutations.Confirmation.{confirm_participation}

abbrev pub administrative_operations : List Operation
administrative_operations =
    Operation.open_registration ∷ Operation.open_confirmation ∷ Operation.send_confirmation_reminder
    ∷ Operation.send_confirmed_notification ∷ Operation.send_all_players_notification
    ∷ Operation.update_event_details ∷ Operation.update_question ∷ Operation.update_player_amount
    ∷ Operation.remove_participant ∷ Operation.remove_waiting_participants
    ∷ Operation.promote_reserve_participant ∷ Operation.close_event ∷ Operation.archive_event ∷ []

-- The commands that the roster does not come into.
abbrev pub game_operations : List Operation
game_operations =
    Operation.open_registration ∷ Operation.open_confirmation ∷ Operation.send_confirmation_reminder
    ∷ Operation.send_confirmed_notification ∷ Operation.send_all_players_notification
    ∷ Operation.update_event_details ∷ Operation.update_question ∷ Operation.update_player_amount
    ∷ Operation.close_event ∷ Operation.archive_event ∷ []

module _ {S : Type 0} (services : Services S) (now : Datetime) where
  -- The commands of a player on a row of their own.
  abbrev pub act :
      Event
      → OrderedRegistrationCommand
      → List Identity
      → Actor
      → Operation
      → Effect (World S) MutationResult
  act event c identities a Operation.confirm =
      confirm_participation services now event c a identities
  act event c identities a Operation.update_character_wish =
      change_character_wish services now event c a
  act event c identities a Operation.update_answer = change_answer services now event c a
  act event c identities a Operation.update_co_player_wish =
      change_co_player_wish services now event c a
  act event c identities a Operation.cancel = cancel_participation services now event c a
  act event c identities a _ = fail_assert

  abbrev pub act_as :
      Event
      → OrderedRegistrationCommand
      → String
      → List Identity × List Registration
      → Option Registration
      → Effect (World S) MutationResult
  act_as event c key (identities, rows) none = refuse
  act_as event c key (identities, rows) (some registration) =
      act event c identities
        (record {
          key = key;
          registration = registration;
          actor_keys = keys_of rows;
          linked = ltb 1 (length identities);
        })
        c.operation

  -- The rows of the author, whose key the command must have unless it removes another player.
  abbrev pub act_on :
      Event
      → OrderedRegistrationCommand
      → String
      → List Identity × List Registration
      → Effect (World S) MutationResult
  act_on event c key (identities, rows) =
      if c.operation == Operation.remove_participant
      then remove_participant services now event c key
      else if not (mem key (keys_in services event c identities))
      then refuse
      else act_as event c key (identities, rows) (effective_registration rows)

  abbrev pub of_player :
      Event → OrderedRegistrationCommand → String → Effect (World S) MutationResult
  of_player event c key =
      if c.operation == Operation.update_profile
      then update_profile_of services now event c key
      else if c.operation == Operation.enlist
      then enlist_player services now event c key
      else if c.operation == Operation.confirm && event.status != EventStatus.confirmation_open
      then refuse
      else (actor_registrations services event c >>= act_on event c key)

  abbrev pub keyed :
      Event → OrderedRegistrationCommand → Option String → Effect (World S) MutationResult
  keyed event c none = fail_assert
  keyed event c (some key) = of_player event c key

  -- What works on the roster, which must have been migrated.
  abbrev pub of_roster : OrderedRegistrationCommand → Event → Effect (World S) MutationResult
  of_roster c event =
      if c.operation == Operation.remove_waiting_participants
      then remove_waiting_participants services now event c
      else if c.operation == Operation.promote_reserve_participant
      then promote_reserve_participant services now event c
      else keyed event c c.participant_key

  abbrev pub allowed : Event → OrderedRegistrationCommand → Effect (World S) MutationResult
  allowed event c =
      if mem c.operation game_operations
      then administer services now c.operation event c
      else (ensure_migrated services now event >>= of_roster c)

  -- A game that is archived takes no more commands.
  abbrev pub on_archived : Event → OrderedRegistrationCommand → Effect (World S) MutationResult
  on_archived event c =
      if c.operation == Operation.archive_event
      then refresh_daily_pass_table services event.game_date >> pure (done "Игра уже архивирована")
      else refuse

  abbrev pub on_game : Event → OrderedRegistrationCommand → Effect (World S) MutationResult
  on_game event c =
      if is_some event.archived_at
      then on_archived event c
      else if mem c.operation administrative_operations
      then require_event_leader services c >> allowed event c
      else allowed event c

  abbrev pub apply_to : OrderedRegistrationCommand → Option Event → Effect (World S) MutationResult
  apply_to c none =
      if mem c.operation (Operation.archive_event ∷ Operation.delete_event ∷ [])
      then pure (done "Игра уже отсутствует в постоянном списке")
      else refuse
  apply_to c (some event) =
      if c.operation == Operation.scheduled_open_confirmation
      then scheduled_open_confirmation services now event c
      else if c.operation == Operation.unarchive_event
      then unarchive_event services now event c
      else if c.operation == Operation.delete_event
      then delete_archived services now event c
      else on_game event c

  unfoldable pub apply : OrderedRegistrationCommand → Effect (World S) MutationResult
  unfolding scheduled_open_confirmation unarchive_event delete_archived administer ensure_migrated
      remove_waiting_participants promote_reserve_participant update_profile_of enlist_player
      actor_registrations remove_participant effective_registration change_character_wish
      change_answer change_co_player_wish cancel_participation confirm_participation
      require_event_leader refresh_daily_pass_table
  apply c = get_event c.event_id >>= apply_to c
