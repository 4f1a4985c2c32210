-- ===== src/Tests/Users.antt =====
-- Linked profiles, roles and deliveries of one person on both platforms.
use rolebot_hse.Base.{◌≡◌, refl, some, [], nat_eq, pair_eq}
use rolebot_hse.Errors.{ok}
use rolebot_hse.Domain.Enums.{Platform, platform_eq, PrivilegedRole, role_eq}
use rolebot_hse.Domain.User.{Identity, effective_privileged_role}
use rolebot_hse.Store.Users.{Rows, owners, find_linked, set_privileged_role, clear_privileged_role}
use rolebot_hse.Store.Users.Links.{IsKeyed, find_linked_symmetric}
use rolebot_hse.Tests.Data.{on_telegram, on_vk, users}

users-IsKeyed : IsKeyed users
users-IsKeyed = (refl, (refl, tt))

find-on_telegram : find_linked on_telegram users ≡ some on_vk
unfolding find_linked owners
find-on_telegram = refl

find_linked_symmetric_example : find_linked on_vk users ≡ some on_telegram
find_linked_symmetric_example =
    find_linked_symmetric users on_telegram on_vk users-IsKeyed refl find-on_telegram

abbrev identity : Identity
identity = (Platform.vk, 6)

abbrev with_role : Rows
with_role = elim (set_privileged_role identity PrivilegedRole.gamemaster "op4" users) [
  | ok rows ↦ rows
  | _ ↦ []
]

role_set : set_privileged_role identity PrivilegedRole.gamemaster "op4" users ≡ ok with_role
unfolding set_privileged_role effective_privileged_role
role_set = refl

abbrev without_role : Rows
without_role = elim (clear_privileged_role identity "op5" with_role) [ ok rows ↦ rows | _ ↦ [] ]

role_cleared : clear_privileged_role identity "op5" with_role ≡ ok without_role
unfolding set_privileged_role clear_privileged_role effective_privileged_role
role_cleared = refl
