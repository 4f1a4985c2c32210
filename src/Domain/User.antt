-- ===== src/Domain/User.antt =====
-- The users of larp_bot/domain/models.py and their roles.
use rolebot_hse.Base.{
  ℕ, String, Bool, true, false, not, ◌&&◌, ◌||◌, Option, none, some, List, is_some, if◌then◌else◌,
}
use rolebot_hse.Domain.Enums.{Platform, PrivilegedRole, includes}
use rolebot_hse.Domain.Event.{Datetime}

pub record Button : Type 0 where
  pub label : String
  pub value : String

-- A `BotIdentity`: platform and user id.
abbrev pub Identity : Type 0
Identity = Platform × ℕ

pub record PassDetails : Type 0 where
  pub surname_cyrillic : String
  pub name_cyrillic : String
  pub patronym_cyrillic : String
  pub foreigner : Bool
  pub surname_latin : Option String
  pub name_latin : Option String
  pub patronym_latin : Option String
  pub mobile_phone : String
  pub email : String

-- `dialog_context`, a dict of any values that nothing here reads, is its JSON text.
pub record UserBase : Type 0 where
  pub full_name : Option String
  pub nickname : Option String
  pub crossplay : Option Bool
  pub larp_experience : Option Bool
  pub needs_pass : Option Bool
  pub pass_details : Option PassDetails
  pub dialog_state : String
  pub dialog_context : String
  pub last_update_id : Option String
  pub last_update_at : Option Datetime
  pub last_delivery_operation_id : Option String
  pub last_bot_buttons : List Button
  pub is_gamemaster : Bool
  pub privileged_role : Option PrivilegedRole
  pub gamemaster_grant_operation_id : Option String
  pub created_at : Datetime
  pub updated_at : Datetime

-- `UserBase.pass_details_match_choice`: whether the validator returns
unfoldable pub pass_details_match_choice : UserBase → Bool
pass_details_match_choice u = elim u.needs_pass [
  | none ↦ true
  | some needed ↦ needed || not (is_some u.pass_details)
]

-- `UserBase.common_profile_complete`
unfoldable pub common_profile_complete : UserBase → Bool
common_profile_complete u =
    is_some u.full_name
    && (is_some u.crossplay
        && elim u.needs_pass [ none ↦ false | some needed ↦ not needed || is_some u.pass_details ])

unfoldable pub effective_privileged_role : UserBase → Option PrivilegedRole
effective_privileged_role u = elim u.privileged_role [
  | some role ↦ some role
  | none ↦ if u.is_gamemaster then some PrivilegedRole.gamemaster else none
]

unfoldable pub has_privileged_role : UserBase → PrivilegedRole → Bool
unfolding effective_privileged_role includes
has_privileged_role u required = elim (effective_privileged_role u) [
  | none ↦ false
  | some role ↦ includes role required
]

pub record TelegramUser : Type 0 where
  pub base : UserBase
  pub tg_id : ℕ
  pub vk_url : Option String
  pub linked_vk_id : Option ℕ
  pub telegram_handle : Option String

pub record VkUser : Type 0 where
  pub base : UserBase
  pub vk_id : ℕ
  pub telegram_handle : Option String

pub data User : Type 0 where
  telegram : TelegramUser → User
  vk : VkUser → User

unfoldable pub profile_complete : User → Bool
unfolding common_profile_complete
profile_complete (User.telegram t) = common_profile_complete t.base && is_some t.vk_url
profile_complete (User.vk v) = common_profile_complete v.base

abbrev pub base_of : User → UserBase
base_of (User.telegram t) = t.base
base_of (User.vk v) = v.base

abbrev pub with_base : (UserBase → UserBase) → User → User
with_base f (User.telegram t) = User.telegram (record t { base = f t.base })
with_base f (User.vk v) = User.vk (record v { base = f v.base })

abbrev pub handle_of : User → Option String
handle_of (User.telegram t) = t.telegram_handle
handle_of (User.vk v) = v.telegram_handle

-- `local_identity` of larp_bot/application/identity.py
abbrev pub local_identity : User → Identity
local_identity (User.telegram t) = (Platform.telegram, t.tg_id)
local_identity (User.vk v) = (Platform.vk, v.vk_id)
