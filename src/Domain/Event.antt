-- ===== src/Domain/Event.antt =====
-- `AnswerOption`, `RegistrationQuestion` and `Event` of larp_bot/domain/models.py.
-- A moment (`datetime`) is the number of microseconds since the epoch, so that moments are compared
-- as Python compares aware ones; a `date` is a number of days. Both are only compared and added.
use rolebot_hse.Base.{
  ℕ, ◌+◌, String, Bool, true, false, not, ◌&&◌, Option, none, some, List, [], ◌∷◌, ◌==◌, string_eq,
  option_eq, leb, is_some, is_none, if◌then◌else◌,
}
use rolebot_hse.Base.Int.{ℤ}
use rolebot_hse.Errors.{Result, ok, err, Error}
use rolebot_hse.Domain.Enums.{EventStatus}

abbrev pub Datetime : Type 0
Datetime = ℕ

abbrev pub Date : Type 0
Date = ℕ

abbrev pub max_player_amount : ℕ
max_player_amount = 10000

abbrev pub max_event_page_size : ℕ
max_event_page_size = 10

pub record AnswerOption : Type 0 where
  pub option_id : String
  pub name : String
  pub player_amount : ℕ

pub record RegistrationQuestion : Type 0 where
  pub text : String
  pub options : List AnswerOption

-- the generator of `RegistrationQuestion.option`
unfoldable pub find_option : Option String → List AnswerOption → Option AnswerOption
find_option option_id [] = none
find_option option_id (o ∷ rest) =
    let later = find_option option_id rest in
    if some o.option_id == option_id then some o else later

-- `RegistrationQuestion.option`
unfoldable pub question_option : RegistrationQuestion → Option String → Option AnswerOption
unfolding find_option
question_option q option_id = find_option option_id q.options

unfoldable pub total_amount : List AnswerOption → ℕ
total_amount [] = 0
total_amount (o ∷ rest) = o.player_amount + total_amount rest

pub record Event : Type 0 where
  pub event_id : String
  pub name : String
  pub game_date : Option Date
  pub player_amount : ℕ
  pub registration_question : Option RegistrationQuestion
  pub disk_resource_path : String
  pub public_registration_url : String
  pub master_table_google_url : Option String
  pub public_table_resource_path : Option String
  pub public_table_public_url : Option String
  pub public_table_google_url : Option String
  pub status : EventStatus
  pub registration_open_at : Option Datetime
  pub registration_open_notified_recipients : List String
  pub registration_open_notification_completed_at : Option Datetime
  pub confirmation_open_at : Option Datetime
  pub scheduled_close_at : Option Datetime
  pub scheduled_close_operation_id : Option String
  pub scheduled_close_notified_recipients : List String
  pub scheduled_close_completed_at : Option Datetime
  pub signup_token : Option String
  pub telegram_post_url : Option String
  pub vk_post_url : Option String
  pub telegram_chat_id : Option ℤ
  pub telegram_chat_invite_link : Option String
  pub confirmation_deadline : Option Datetime
  pub registrations_migrated_at : Option Datetime
  pub pass_table_resource_path : Option String
  pub pass_table_public_url : Option String
  pub pass_table_google_url : Option String
  pub achievement_resource_path : Option String
  pub achievement_public_url : Option String
  pub confirmed_notifications : List String
  pub last_confirmed_notification_operation_id : Option String
  pub last_reserve_promotion_operation_id : Option String
  pub last_reserve_promotion_participant_key : Option String
  pub last_reserve_promotion_delivered_operation_id : Option String
  pub last_confirmed_link_promotion_operation_id : Option String
  pub last_confirmed_link_promotion_participant_key : Option String
  pub last_confirmed_link_promotion_delivered_operation_id : Option String
  pub last_participant_removal_operation_id : Option String
  pub participant_removal_keys : List String
  pub participant_removal_notified_keys : List String
  pub archived_at : Option Datetime
  pub created_at : Datetime
  pub updated_at : Datetime

abbrev same_presence {ℓ} : {A : Type ℓ} → Option A → Option A → Bool
same_presence none none = true
same_presence (some _) (some _) = true
same_presence _ _ = false

-- `Event.table_fields_are_atomic`: whether the validator returns
unfoldable pub table_fields_are_atomic : Event → Bool
table_fields_are_atomic e =
    same_presence e.public_table_resource_path e.public_table_public_url
    && (same_presence e.pass_table_resource_path e.pass_table_public_url
        && (same_presence e.achievement_resource_path e.achievement_public_url
            && not (is_some e.telegram_chat_invite_link && is_none e.telegram_chat_id)))

-- `Event.registration_is_open`
unfoldable pub registration_is_open : Event → Datetime → Bool
registration_is_open e now = elim e.registration_open_at [ none ↦ true | some t ↦ leb t now ]

-- `Event.model_validate`: pydantic checks the constraints on single fields, a parameter here, and
-- then runs the validator of the class.
unfoldable pub model_validate : (Event → Bool) → Event → Result Event
unfolding table_fields_are_atomic
model_validate fields_ok e =
    if fields_ok e && table_fields_are_atomic e then ok e else err Error.validation_error

-- The projection of an event that the lifecycle scheduler reads.
pub record ScheduledLifecycleEvent : Type 0 where
  pub event_id : String
  pub name : String
  pub game_date : Option Date
  pub status : EventStatus
  pub registration_open_at : Option Datetime
  pub registration_open_notified_recipients : List String
  pub registration_open_notification_completed_at : Option Datetime
  pub confirmation_open_at : Option Datetime
  pub confirmation_deadline : Option Datetime
  pub scheduled_close_at : Option Datetime
  pub scheduled_close_operation_id : Option String
  pub scheduled_close_completed_at : Option Datetime
  pub archived_at : Option Datetime
