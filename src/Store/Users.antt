-- ===== src/Store/Users.antt =====
-- `MemoryUserRepository` of larp_bot/adapters/memory.py, and what identity.py makes of it. The
-- proofs are in the children.
pub mod Links
pub mod Roles
use rolebot_hse.Base.{
  ℕ, String, Bool, true, false, ◌&&◌, ◌||◌, Option, none, some, List, [], ◌∷◌, map, ◌==◌, ◌!=◌,
  string_eq, nat_eq, bool_eq, option_eq, pair_eq, is_some, if◌then◌else◌,
}
use rolebot_hse.Errors.{Result, ok, err, Error}
use rolebot_hse.Dict.{Dict, get, put, adjust, values}
use rolebot_hse.Domain.Enums.{Platform, platform_eq, PrivilegedRole, role_eq}
use rolebot_hse.Domain.Event.{Datetime}
use rolebot_hse.Domain.User.{
  Button, Identity, UserBase, TelegramUser, VkUser, User, base_of, with_base, handle_of,
  local_identity, effective_privileged_role,
}

abbrev pub Rows : Type 0
Rows = Dict Identity User

-- the profiles that both comprehensions of `find_linked` select
abbrev pub claims : ℕ → String → TelegramUser → Bool
claims vk_id handle t = t.linked_vk_id == some vk_id && t.telegram_handle == some handle

abbrev pub add_owner : ℕ → String → Platform → User → List TelegramUser → List TelegramUser
add_owner vk_id handle platform (User.vk _) rest = rest
add_owner vk_id handle platform (User.telegram t) rest =
    if platform == Platform.telegram && claims vk_id handle t then t ∷ rest else rest

unfoldable pub owners : ℕ → String → Rows → List TelegramUser
owners vk_id handle [] = []
owners vk_id handle (((platform, _), user) ∷ rows) =
    add_owner vk_id handle platform user (owners vk_id handle rows)

-- `linked is None or linked.telegram_handle != user.telegram_handle`
abbrev pub if_handle : String → Option User → Option User
if_handle handle none = none
if_handle handle (some linked) = if handle_of linked == some handle then some linked else none

-- the two tests on `owners` for a Telegram user
abbrev pub sole_owner : ℕ → List TelegramUser → Option User → Option User
sole_owner tg_id [] linked = none
sole_owner tg_id (o ∷ []) linked = if o.tg_id == tg_id then linked else none
sole_owner tg_id (_ ∷ _ ∷ _) linked = none

-- `matches[0] if len(matches) == 1 else None`
abbrev pub sole : List TelegramUser → Option User
sole [] = none
sole (o ∷ []) = some (User.telegram o)
sole (_ ∷ _ ∷ _) = none

abbrev pub linked_telegram : ℕ → Option ℕ → Option String → Rows → Option User
linked_telegram tg_id (some vk_id) (some handle) rows =
    sole_owner tg_id (owners vk_id handle rows) (if_handle handle (get (Platform.vk, vk_id) rows))
linked_telegram tg_id _ _ rows = none

abbrev pub linked_vk : ℕ → Option String → Rows → Option User
linked_vk vk_id none rows = none
linked_vk vk_id (some handle) rows = sole (owners vk_id handle rows)

unfoldable pub find_linked : User → Rows → Option User
unfolding owners
find_linked (User.telegram t) rows = linked_telegram t.tg_id t.linked_vk_id t.telegram_handle rows
find_linked (User.vk v) rows = linked_vk v.vk_id v.telegram_handle rows

-- the comprehension of `find_telegram_by_handle`
unfoldable pub with_handle : String → Rows → List User
with_handle handle [] = []
with_handle handle (((platform, _), user) ∷ rows) =
    let rest = with_handle handle rows in
    if platform == Platform.telegram && handle_of user == some handle then user ∷ rest else rest

-- The assertion that a lone match is a Telegram user is the third clause.
abbrev pub lone_telegram : List User → Result (Option TelegramUser)
lone_telegram [] = ok none
lone_telegram (User.telegram t ∷ []) = ok (some t)
lone_telegram (User.vk v ∷ []) = err Error.runtime_error
lone_telegram (_ ∷ _ ∷ _) = ok none

unfoldable pub find_telegram_by_handle : String → Rows → Result (Option TelegramUser)
unfolding with_handle
find_telegram_by_handle handle rows = lone_telegram (with_handle handle rows)

abbrev pub set_link : Datetime → Option String → Option ℕ → User → User
set_link now handle linked_vk_id (User.vk v) = User.vk v
set_link now handle linked_vk_id (User.telegram t) = User.telegram (record {
  base = record (t.base) { updated_at = now };
  tg_id = t.tg_id;
  vk_url = t.vk_url;
  linked_vk_id = linked_vk_id;
  telegram_handle = handle;
})

abbrev pub set_handle : Datetime → String → User → User
set_handle now handle (User.vk v) = User.vk v
set_handle now handle (User.telegram t) =
    set_link now (some handle) t.linked_vk_id (User.telegram t)

unfoldable pub update_telegram_handle : Datetime → ℕ → String → Rows → Rows
update_telegram_handle now user_id handle =
    adjust (Platform.telegram, user_id) (set_handle now handle)

unfoldable pub update_telegram_link : Datetime → ℕ → Option String → Option ℕ → Rows → Rows
update_telegram_link now user_id handle linked_vk_id =
    adjust (Platform.telegram, user_id) (set_link now handle linked_vk_id)

unfoldable pub save : User → Rows → Rows
save user = put (local_identity user) user

unfoldable pub set_larp_experience : Datetime → Identity → Bool → Rows → Rows
set_larp_experience now identity experienced =
    adjust identity
      (with_base (λ u. record u { larp_experience = some experienced; updated_at = now }))

unfoldable pub grant_larp_experience : Datetime → Identity → Rows → Rows
grant_larp_experience now identity =
    adjust identity (with_base (λ u. record u { larp_experience = some true; updated_at = now }))

abbrev pub granted : PrivilegedRole → String → UserBase → UserBase
granted role operation_id u =
    if effective_privileged_role u != some role
      || u.gamemaster_grant_operation_id != some operation_id
    then record u {
      is_gamemaster = true;
      privileged_role = some role;
      gamemaster_grant_operation_id = some operation_id;
    }
    else u

abbrev pub revoked : String → UserBase → UserBase
revoked operation_id u =
    if is_some (effective_privileged_role u)
    then record u {
      is_gamemaster = false;
      privileged_role = none;
      gamemaster_grant_operation_id = some operation_id;
    }
    else u

-- `user = self.rows[(platform, user_id)]`, then a change of it
abbrev pub subscripted : Identity → (UserBase → UserBase) → Rows → Option User → Result Rows
subscripted identity f rows none = err Error.key_error
subscripted identity f rows (some _) = ok (adjust identity (with_base f) rows)

unfoldable pub set_privileged_role : Identity → PrivilegedRole → String → Rows → Result Rows
unfolding effective_privileged_role
set_privileged_role identity role operation_id rows =
    subscripted identity (granted role operation_id) rows (get identity rows)

unfoldable pub clear_privileged_role : Identity → String → Rows → Result Rows
unfolding effective_privileged_role
clear_privileged_role identity operation_id rows =
    subscripted identity (revoked operation_id) rows (get identity rows)

abbrev pub claim_found : Identity → String → List Button → Rows → Option User → Rows × Bool
claim_found identity operation_id buttons rows none = (rows, true)
claim_found identity operation_id buttons rows (some user) =
    if (base_of user).last_delivery_operation_id == some operation_id then (rows, false) else (
      adjust identity
          (with_base (λ u. record u {
            last_delivery_operation_id = some operation_id;
            last_bot_buttons = buttons;
          }))
          rows,
      true,
    )

unfoldable pub claim_delivery : Identity → String → List Button → Rows → Rows × Bool
claim_delivery identity operation_id buttons rows =
    claim_found identity operation_id buttons rows (get identity rows)

-- `global_identities` and `identities_for_local_user` of identity.py; the first argument of the
-- second says whether there is a user repository.
unfoldable pub global_identities : User → Rows → List Identity
unfolding find_linked
global_identities user rows = elim (find_linked user rows) [
  | none ↦ local_identity user ∷ []
  | some linked ↦ local_identity user ∷ local_identity linked ∷ []
]

unfoldable pub identities_for_local_user : Option Rows → Identity → List Identity
unfolding global_identities
identities_for_local_user none identity = identity ∷ []
identities_for_local_user (some rows) identity = elim (get identity rows) [
  | none ↦ identity ∷ []
  | some user ↦ global_identities user rows
]
