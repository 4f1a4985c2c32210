-- ===== src/Tests/Data.antt =====
-- The rows that the tests share.
use rolebot_hse.Base.{ℕ, String, true, false, none, some, [], ◌∷◌}
use rolebot_hse.Dict.{Dict}
use rolebot_hse.Domain.Enums.{EventStatus, AttendanceStatus, Platform}
use rolebot_hse.Domain.Event.{Event, Datetime}
use rolebot_hse.Domain.Registration.{Registration}
use rolebot_hse.Domain.User.{UserBase, User, Identity}
use rolebot_hse.Store.Registrations.Enlist.{Enlistment}

abbrev pub game : String → ℕ → Datetime → Event
game id players time = record {
  event_id = id;
  name = "Бал";
  game_date = some 20000;
  player_amount = players;
  registration_question = none;
  disk_resource_path = "disk:/ball";
  public_registration_url = "https://disk/ball";
  master_table_google_url = none;
  public_table_resource_path = none;
  public_table_public_url = none;
  public_table_google_url = none;
  status = EventStatus.created;
  registration_open_at = none;
  registration_open_notified_recipients = [];
  registration_open_notification_completed_at = none;
  confirmation_open_at = none;
  scheduled_close_at = some 900;
  scheduled_close_operation_id = none;
  scheduled_close_notified_recipients = [];
  scheduled_close_completed_at = none;
  signup_token = none;
  telegram_post_url = none;
  vk_post_url = none;
  telegram_chat_id = none;
  telegram_chat_invite_link = none;
  confirmation_deadline = none;
  registrations_migrated_at = none;
  pass_table_resource_path = none;
  pass_table_public_url = none;
  pass_table_google_url = none;
  achievement_resource_path = none;
  achievement_public_url = none;
  confirmed_notifications = [];
  last_confirmed_notification_operation_id = none;
  last_reserve_promotion_operation_id = none;
  last_reserve_promotion_participant_key = none;
  last_reserve_promotion_delivered_operation_id = none;
  last_confirmed_link_promotion_operation_id = none;
  last_confirmed_link_promotion_participant_key = none;
  last_confirmed_link_promotion_delivered_operation_id = none;
  last_participant_removal_operation_id = none;
  participant_removal_keys = [];
  participant_removal_notified_keys = [];
  archived_at = none;
  created_at = time;
  updated_at = time;
}

abbrev pub player : String → String → AttendanceStatus → Datetime → Registration
player id key status time = record {
  event_id = id;
  participant_key = key;
  display_name = key;
  nickname = none;
  vk_profile = "https://vk.com/id1";
  telegram_profile = none;
  wish_play = "";
  answer_id = none;
  answer_queue_at = none;
  larp_experience = none;
  crossplay = none;
  character_wish = "";
  attendance_status = status;
  last_operation_id = "op0";
  created_at = time;
  updated_at = time;
}

-- Two players of the ball, one who left it, and one of another game.
abbrev pub registrations : Dict (String × String) Registration
registrations =
    (("ball", "vk:1"), player "ball" "vk:1" AttendanceStatus.confirmed 30)
    ∷ (("ball", "vk:2"), player "ball" "vk:2" AttendanceStatus.cancelled 10)
    ∷ (("ball", "vk:3"), player "ball" "vk:3" AttendanceStatus.waiting 20)
    ∷ (("siege", "vk:1"), player "siege" "vk:1" AttendanceStatus.waiting 25)
    ∷ []

abbrev pub signup : Enlistment
signup = record {
  operation_id = "op7";
  participant_key = "vk:2";
  display_name = "Вера";
  nickname = none;
  wish_play = "";
  larp_experience = some true;
  crossplay = none;
  vk_profile = "https://vk.com/id2";
  telegram_profile = none;
  answer_id = none;
}

abbrev pub person : UserBase
person = record {
  full_name = none;
  nickname = none;
  crossplay = none;
  larp_experience = none;
  needs_pass = none;
  pass_details = none;
  dialog_state = "idle";
  dialog_context = "{}";
  last_update_id = none;
  last_update_at = none;
  last_delivery_operation_id = none;
  last_bot_buttons = [];
  is_gamemaster = false;
  privileged_role = none;
  gamemaster_grant_operation_id = none;
  created_at = 1;
  updated_at = 1;
}

abbrev pub on_telegram : User
on_telegram = User.telegram (record {
  base = person;
  tg_id = 5;
  vk_url = none;
  linked_vk_id = some 6;
  telegram_handle = some "vera";
})

abbrev pub on_vk : User
on_vk = User.vk (record { base = person; vk_id = 6; telegram_handle = some "vera" })

abbrev pub users : Dict Identity User
users = ((Platform.telegram, 5), on_telegram) ∷ ((Platform.vk, 6), on_vk) ∷ []
