-- ===== src/Domain/Registration.antt =====
-- `Registration` of larp_bot/domain/models.py.
use rolebot_hse.Base.{String, Bool, Option}
use rolebot_hse.Domain.Enums.{AttendanceStatus}
use rolebot_hse.Domain.Event.{Datetime}

pub record Registration : Type 0 where
  pub event_id : String
  pub participant_key : String
  pub display_name : String
  pub nickname : Option String
  pub vk_profile : String
  pub telegram_profile : Option String
  pub wish_play : String
  pub answer_id : Option String
  pub answer_queue_at : Option Datetime
  pub larp_experience : Option Bool
  pub crossplay : Option Bool
  pub character_wish : String
  pub attendance_status : AttendanceStatus
  pub last_operation_id : String
  pub created_at : Datetime
  pub updated_at : Datetime
