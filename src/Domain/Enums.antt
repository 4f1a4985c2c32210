-- ===== src/Domain/Enums.antt =====
-- The enumerations of larp_bot/domain/models.py, with the comparison that Python's `is` makes.
use Prim.Native.Nat.{ℕ}
use rolebot_hse.Base.{◌≡◌, ◌↔◌, Bool, true, false, String, arith, Eq, leb}

pub data Platform : Type 0 where
  telegram vk system : Platform

-- `Platform.value`
unfoldable pub platform_value : Platform → String
platform_value Platform.telegram = "telegram"
platform_value Platform.vk = "vk"
platform_value Platform.system = "system"

pub data PrivilegedRole : Type 0 where
  gamemaster gamemaster_viewer pass_manager admin : PrivilegedRole

-- `PrivilegedRole.level`
unfoldable pub level : PrivilegedRole → ℕ
level PrivilegedRole.gamemaster = 1
level PrivilegedRole.gamemaster_viewer = 2
level PrivilegedRole.pass_manager = 3
level PrivilegedRole.admin = 4

unfoldable pub includes : PrivilegedRole → PrivilegedRole → Bool
unfolding level
includes role required = leb (level required) (level role)

pub data EventStatus : Type 0 where
  created confirmation_open closed : EventStatus

pub data AttendanceStatus : Type 0 where
  waiting confirmed cancelled : AttendanceStatus

pub data Operation : Type 0 where
  statistics sync_profile refresh_daily_pass_table refresh_event_tables enlist : Operation
  update_profile confirm update_character_wish update_co_player_wish update_answer : Operation
  update_question cancel open_registration open_confirmation : Operation
  scheduled_open_confirmation send_confirmation_reminder send_confirmed_notification : Operation
  send_all_players_notification update_event_details update_player_amount : Operation
  remove_participant remove_waiting_participants promote_reserve_participant : Operation
  close_event archive_event scheduled_close_event scheduled_close_statistics : Operation
  scheduled_close_finalize unarchive_event delete_event : Operation

-- Each enumeration is told apart by the position of its members.
abbrev pub platform_beq : Platform → Platform → Bool
platform_beq Platform.telegram Platform.telegram = true
platform_beq Platform.vk Platform.vk = true
platform_beq Platform.system Platform.system = true
platform_beq _ _ = false

pub platform_beq_iff : (a b : Platform) → (platform_beq a b ≡ true) ↔ (a ≡ b)
platform_beq_iff a b = ground arith

instance abbrev pub platform_eq : Eq Platform
platform_eq = record { beq = platform_beq; beq_iff = platform_beq_iff }

abbrev pub role_beq : PrivilegedRole → PrivilegedRole → Bool
role_beq PrivilegedRole.gamemaster PrivilegedRole.gamemaster = true
role_beq PrivilegedRole.gamemaster_viewer PrivilegedRole.gamemaster_viewer = true
role_beq PrivilegedRole.pass_manager PrivilegedRole.pass_manager = true
role_beq PrivilegedRole.admin PrivilegedRole.admin = true
role_beq _ _ = false

pub role_beq_iff : (a b : PrivilegedRole) → (role_beq a b ≡ true) ↔ (a ≡ b)
role_beq_iff a b = ground arith

instance abbrev pub role_eq : Eq PrivilegedRole
role_eq = record { beq = role_beq; beq_iff = role_beq_iff }

abbrev pub status_beq : EventStatus → EventStatus → Bool
status_beq EventStatus.created EventStatus.created = true
status_beq EventStatus.confirmation_open EventStatus.confirmation_open = true
status_beq EventStatus.closed EventStatus.closed = true
status_beq _ _ = false

pub status_beq_iff : (a b : EventStatus) → (status_beq a b ≡ true) ↔ (a ≡ b)
status_beq_iff a b = ground arith

instance abbrev pub status_eq : Eq EventStatus
status_eq = record { beq = status_beq; beq_iff = status_beq_iff }

abbrev pub attendance_beq : AttendanceStatus → AttendanceStatus → Bool
attendance_beq AttendanceStatus.waiting AttendanceStatus.waiting = true
attendance_beq AttendanceStatus.confirmed AttendanceStatus.confirmed = true
attendance_beq AttendanceStatus.cancelled AttendanceStatus.cancelled = true
attendance_beq _ _ = false

pub attendance_beq_iff : (a b : AttendanceStatus) → (attendance_beq a b ≡ true) ↔ (a ≡ b)
attendance_beq_iff a b = ground arith

instance abbrev pub attendance_eq : Eq AttendanceStatus
attendance_eq = record { beq = attendance_beq; beq_iff = attendance_beq_iff }

abbrev pub operation_beq : Operation → Operation → Bool
operation_beq Operation.statistics Operation.statistics = true
operation_beq Operation.sync_profile Operation.sync_profile = true
operation_beq Operation.refresh_daily_pass_table Operation.refresh_daily_pass_table = true
operation_beq Operation.refresh_event_tables Operation.refresh_event_tables = true
operation_beq Operation.enlist Operation.enlist = true
operation_beq Operation.update_profile Operation.update_profile = true
operation_beq Operation.confirm Operation.confirm = true
operation_beq Operation.update_character_wish Operation.update_character_wish = true
operation_beq Operation.update_co_player_wish Operation.update_co_player_wish = true
operation_beq Operation.update_answer Operation.update_answer = true
operation_beq Operation.update_question Operation.update_question = true
operation_beq Operation.cancel Operation.cancel = true
operation_beq Operation.open_registration Operation.open_registration = true
operation_beq Operation.open_confirmation Operation.open_confirmation = true
operation_beq Operation.scheduled_open_confirmation Operation.scheduled_open_confirmation = true
operation_beq Operation.send_confirmation_reminder Operation.send_confirmation_reminder = true
operation_beq Operation.send_confirmed_notification Operation.send_confirmed_notification = true
operation_beq Operation.send_all_players_notification Operation.send_all_players_notification = true
operation_beq Operation.update_event_details Operation.update_event_details = true
operation_beq Operation.update_player_amount Operation.update_player_amount = true
operation_beq Operation.remove_participant Operation.remove_participant = true
operation_beq Operation.remove_waiting_participants Operation.remove_waiting_participants = true
operation_beq Operation.promote_reserve_participant Operation.promote_reserve_participant = true
operation_beq Operation.close_event Operation.close_event = true
operation_beq Operation.archive_event Operation.archive_event = true
operation_beq Operation.scheduled_close_event Operation.scheduled_close_event = true
operation_beq Operation.scheduled_close_statistics Operation.scheduled_close_statistics = true
operation_beq Operation.scheduled_close_finalize Operation.scheduled_close_finalize = true
operation_beq Operation.unarchive_event Operation.unarchive_event = true
operation_beq Operation.delete_event Operation.delete_event = true
operation_beq _ _ = false

pub operation_beq_iff : (a b : Operation) → (operation_beq a b ≡ true) ↔ (a ≡ b)
operation_beq_iff a b = ground arith

instance abbrev pub operation_eq : Eq Operation
operation_eq = record { beq = operation_beq; beq_iff = operation_beq_iff }
