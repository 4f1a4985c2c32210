-- ===== src/Domain/Command.antt =====
-- `OrderedRegistrationCommand` of larp_bot/domain/models.py with its payloads, the queue group that
-- orders it, and the validator of its shape.
use rolebot_hse.Base.{
  ℕ, String, Bool, true, false, not, ◌&&◌, ◌||◌, Option, none, some, List, [], ◌∷◌, ◌==◌, string_eq,
  nat_eq, mem, or_else, if◌then◌else◌,
}
use rolebot_hse.Base.Int.{ℤ}
use rolebot_hse.Base.Text.{◌&◌, decimal}
use rolebot_hse.Domain.Enums.{Platform, platform_eq, platform_value, Operation, operation_eq}
use rolebot_hse.Domain.Event.{Date, Datetime, RegistrationQuestion}
use rolebot_hse.Domain.User.{Button}

pub record EnlistPayload : Type 0 where
  pub answer_id : Option String
  pub display_name : String
  pub nickname : Option String
  pub wish_play : String
  pub larp_experience : Option Bool
  pub crossplay : Option Bool
  pub vk_profile : String
  pub telegram_profile : Option String
  pub same_day_warning_shown : Bool

pub data StatisticsAction : Type 0 where
  game link : StatisticsAction

-- `CommandPayload`, a constructor for each class
pub data CommandPayload : Type 0 where
  enlist : EnlistPayload → CommandPayload
  answer : String → CommandPayload
  question : RegistrationQuestion → CommandPayload
  co_player_wish : String → CommandPayload
  character_wish : String → Option String → CommandPayload
  confirmation_deadline : Datetime → CommandPayload
  notification : String → CommandPayload
  event_details : String → Date → CommandPayload
  player_amount : ℕ → CommandPayload
  profile_sync : List String → CommandPayload
  daily_pass_refresh : Date → CommandPayload
  statistics : StatisticsAction → Option String → CommandPayload
  empty : CommandPayload

pub record ReplyContext : Type 0 where
  pub chat_id : Option ℤ
  pub peer_id : Option ℤ
  pub text_success : String
  pub text_failure : String
  pub buttons : List Button

pub record OrderedRegistrationCommand : Type 0 where
  pub operation_id : String
  pub event_id : String
  pub operation : Operation
  pub platform : Platform
  pub platform_user_id : ℕ
  pub participant_key : Option String
  pub identity_group : Option String
  pub payload : CommandPayload
  pub reply_context : ReplyContext
  pub created_at : Datetime

unfoldable pub queue_group_id : OrderedRegistrationCommand → String
unfolding platform_value
queue_group_id c =
    let own = platform_value c.platform & ":" & decimal c.platform_user_id in
    if c.operation == Operation.confirm
    then "confirmation:" & or_else c.identity_group own
    else if c.operation == Operation.scheduled_close_statistics
    then "statistics"
    else c.event_id

abbrev pub participant_ops : List Operation
participant_ops =
    Operation.enlist ∷ Operation.update_profile ∷ Operation.confirm
    ∷ Operation.update_character_wish ∷ Operation.update_co_player_wish ∷ Operation.update_answer
    ∷ Operation.cancel ∷ Operation.remove_participant ∷ Operation.promote_reserve_participant ∷ []

abbrev pub empty_payload_operations : List Operation
empty_payload_operations =
    Operation.refresh_event_tables ∷ Operation.update_profile ∷ Operation.cancel
    ∷ Operation.remove_participant ∷ Operation.promote_reserve_participant
    ∷ Operation.open_registration ∷ Operation.send_confirmation_reminder ∷ Operation.close_event
    ∷ Operation.remove_waiting_participants ∷ Operation.archive_event
    ∷ Operation.scheduled_close_event ∷ Operation.scheduled_close_statistics
    ∷ Operation.scheduled_close_finalize ∷ Operation.unarchive_event ∷ Operation.delete_event ∷ []

-- `isinstance(self.payload, ...)`
abbrev pub is_enlist : CommandPayload → Bool
is_enlist (CommandPayload.enlist _) = true
is_enlist _ = false

abbrev pub is_answer : CommandPayload → Bool
is_answer (CommandPayload.answer _) = true
is_answer _ = false

abbrev pub is_question : CommandPayload → Bool
is_question (CommandPayload.question _) = true
is_question _ = false

abbrev pub is_co_player_wish : CommandPayload → Bool
is_co_player_wish (CommandPayload.co_player_wish _) = true
is_co_player_wish _ = false

abbrev pub is_character_wish : CommandPayload → Bool
is_character_wish (CommandPayload.character_wish _ _) = true
is_character_wish _ = false

abbrev pub is_confirmation_deadline : CommandPayload → Bool
is_confirmation_deadline (CommandPayload.confirmation_deadline _) = true
is_confirmation_deadline _ = false

abbrev pub is_notification : CommandPayload → Bool
is_notification (CommandPayload.notification _) = true
is_notification _ = false

abbrev pub is_event_details : CommandPayload → Bool
is_event_details (CommandPayload.event_details _ _) = true
is_event_details _ = false

abbrev pub is_player_amount : CommandPayload → Bool
is_player_amount (CommandPayload.player_amount _) = true
is_player_amount _ = false

abbrev pub is_profile_sync : CommandPayload → Bool
is_profile_sync (CommandPayload.profile_sync _) = true
is_profile_sync _ = false

abbrev pub is_statistics : CommandPayload → Bool
is_statistics (CommandPayload.statistics _ _) = true
is_statistics _ = false

abbrev pub is_empty : CommandPayload → Bool
is_empty CommandPayload.empty = true
is_empty _ = false

-- `not self.participant_key`
abbrev pub is_missing : Option String → Bool
is_missing none = true
is_missing (some key) = key == ""

-- `date.isoformat` is a parameter.
module _ (isoformat : Date → String) where
  abbrev pub is_daily_refresh : OrderedRegistrationCommand → CommandPayload → Bool
  is_daily_refresh c (CommandPayload.daily_pass_refresh game_date) =
      c.event_id == "daily-passes:" & isoformat game_date && c.platform == Platform.system
  is_daily_refresh c _ = false

  -- What the validator wants of a command of each operation: the `isinstance` tests of its
  -- branches, as one test for each operation, and the participant.
  unfoldable pub payload_fits : OrderedRegistrationCommand → Operation → Bool
  unfolding platform_value
  payload_fits c Operation.statistics = is_statistics c.payload && c.event_id == "statistics"
  payload_fits c Operation.sync_profile =
      is_profile_sync c.payload
      && c.event_id == "profile:" & platform_value c.platform & ":" & decimal c.platform_user_id
  payload_fits c Operation.refresh_daily_pass_table = is_daily_refresh c c.payload
  payload_fits c Operation.update_answer = is_answer c.payload
  payload_fits c Operation.update_question = is_question c.payload
  payload_fits c Operation.enlist = is_enlist c.payload
  payload_fits c Operation.confirm = is_character_wish c.payload
  payload_fits c Operation.update_character_wish = is_character_wish c.payload
  payload_fits c Operation.update_co_player_wish = is_co_player_wish c.payload
  payload_fits c Operation.open_confirmation = is_confirmation_deadline c.payload
  payload_fits c Operation.scheduled_open_confirmation = is_confirmation_deadline c.payload
  payload_fits c Operation.send_confirmed_notification = is_notification c.payload
  payload_fits c Operation.send_all_players_notification = is_notification c.payload
  payload_fits c Operation.update_player_amount = is_player_amount c.payload
  payload_fits c Operation.update_event_details = is_event_details c.payload
  payload_fits c operation = not (mem operation empty_payload_operations) || is_empty c.payload

  -- `validate_shape`: whether the validator returns
  unfoldable pub validate_shape : OrderedRegistrationCommand → Bool
  unfolding payload_fits
  validate_shape c =
      not (mem c.operation participant_ops && is_missing c.participant_key)
      && payload_fits c c.operation
