-- ===== src/Application/Notifications/ChatRemoval.antt =====
-- The removal of a player who cancelled a confirmed participation from the chat of the game.
use rolebot_hse.Base.{
  ℕ, String, Bool, true, false, Option, none, some, List, [], ◌∷◌, mem, or_else, nat_eq, pair_eq,
  string_eq, option_eq, ◌==◌, ◌!=◌, if◌then◌else◌,
}
use rolebot_hse.Base.Int.{ℤ}
use rolebot_hse.Base.Text.{◌&◌, decimal}
use rolebot_hse.Errors.{Result, ok, err, Error}
use rolebot_hse.Dict.{get}
use rolebot_hse.Domain.Enums.{Platform, platform_eq, Operation, operation_eq}
use rolebot_hse.Domain.Event.{Event}
use rolebot_hse.Domain.User.{TelegramUser, User}
use rolebot_hse.Domain.Registration.{Registration}
use rolebot_hse.Domain.Command.{OrderedRegistrationCommand}
use rolebot_hse.Store.Users.{find_linked, find_telegram_by_handle}
use rolebot_hse.Application.Effects.{Effect, ◌>>=◌, pure, raise}
use rolebot_hse.Application.Mutations.{UserRows}
use rolebot_hse.Application.Notifications.{State, Gateways, user_rows, required_event}
use rolebot_hse.Application.Notifications.MasterNotices.{first_cancellation}

-- `global_users` of identity.py
abbrev pub with_linked : User → Option User → List User
with_linked user none = user ∷ []
with_linked user (some linked) = user ∷ linked ∷ []

unfoldable pub global_users : User → UserRows → List User
unfolding find_linked
global_users user rows = with_linked user (find_linked user rows)

unfoldable pub first_telegram_id : List User → Option ℕ
first_telegram_id [] = none
first_telegram_id (User.telegram t ∷ users) = some t.tg_id
first_telegram_id (User.vk v ∷ users) = first_telegram_id users

abbrev pub id_of_local : Option User → UserRows → Option ℕ
id_of_local none rows = none
id_of_local (some user) rows = first_telegram_id (global_users user rows)

abbrev pub id_of_found : Result (Option TelegramUser) → Result (Option ℕ)
id_of_found (err e) = err e
id_of_found (ok none) = ok none
id_of_found (ok (some t)) = ok (some t.tg_id)

abbrev pub id_of_handle : Option String → UserRows → Result (Option ℕ)
id_of_handle none rows = ok none
id_of_handle (some handle) rows = id_of_found (find_telegram_by_handle handle rows)

abbrev pub id_of_registration : Option Registration → UserRows → Result (Option ℕ)
id_of_registration none rows = ok none
id_of_registration (some r) rows = id_of_handle r.telegram_profile rows

module _ {S : Type 0} (gateways : Gateways S) where
  abbrev pub key_of_author : OrderedRegistrationCommand → Event → Option String → String
  key_of_author c event key =
      or_else key (gateways.participant_key (c.platform, c.platform_user_id) event.event_id)

  abbrev pub or_registered :
      OrderedRegistrationCommand → Event → Option String → Option ℕ → State S → Result (Option ℕ)
  or_registered c event key (some id) w = ok (some id)
  or_registered c event key none w =
      id_of_registration (get (event.event_id, key_of_author c event key) w.registrations.rows)
        (user_rows w)

  -- The Telegram id of the player: the author's own, that of a linked profile, or that of the handle
  -- in the registration.
  unfoldable pub telegram_id_of :
      OrderedRegistrationCommand → Event → Option String → State S → Result (Option ℕ)
  unfolding global_users first_telegram_id find_telegram_by_handle
  telegram_id_of c event key w =
      if c.platform == Platform.telegram
      then ok (some c.platform_user_id)
      else or_registered c event key
          (id_of_local (get (c.platform, c.platform_user_id) (user_rows w)) (user_rows w)) w

  abbrev pub kick_id :
      (ℤ → ℕ → String → Effect (State S) Bool)
      → ℤ
      → OrderedRegistrationCommand
      → Event
      → Result (Option ℕ)
      → Effect (State S) Bool
  kick_id kick chat_id c event (err e) = raise e
  kick_id kick chat_id c event (ok none) = pure false
  kick_id kick chat_id c event (ok (some id)) =
      kick chat_id id (c.operation_id & ":kick:" & event.event_id & ":" & decimal id)

  -- Whether the participation was confirmed, and the key of the cancelled row, if the snapshot says.
  abbrev pub kick_if :
      (ℤ → ℕ → String → Effect (State S) Bool)
      → ℤ
      → OrderedRegistrationCommand
      → Event
      → Option (Bool × String)
      → Effect (State S) Bool
  kick_if kick chat_id c event none = pure false
  kick_if kick chat_id c event (some (false, key)) = pure false
  kick_if kick chat_id c event (some (true, key)) =
      λ w. kick_id kick chat_id c event (telegram_id_of c event (some key) w) w

  abbrev pub kick_stated :
      (ℤ → ℕ → String → Effect (State S) Bool)
      → ℤ
      → OrderedRegistrationCommand
      → Event
      → Option Bool
      → Effect (State S) Bool
  kick_stated kick chat_id c event (some false) w = (ok false, w)
  kick_stated kick chat_id c event (some true) w =
      kick_id kick chat_id c event (telegram_id_of c event none w) w
  kick_stated kick chat_id c event none w =
      (if c.operation != Operation.cancel
          then raise Error.value_error
          else if event.last_participant_removal_operation_id == some c.operation_id
          then kick_if kick chat_id c event (first_cancellation event.participant_removal_keys)
          else pure false)
        w

  -- Without a gateway or a chat nothing is asked of the command.
  abbrev pub kick_from :
      Option (ℤ → ℕ → String → Effect (State S) Bool)
      → Option ℤ
      → OrderedRegistrationCommand
      → Event
      → Option Bool
      → Effect (State S) Bool
  kick_from (some kick) (some chat_id) c event confirmed =
      kick_stated kick chat_id c event confirmed
  kick_from _ _ c event confirmed = pure false

  unfoldable pub kick_cancelled_participant :
      OrderedRegistrationCommand → Option String → Option Bool → Effect (State S) Bool
  unfolding telegram_id_of first_cancellation
  kick_cancelled_participant c event_id confirmed =
      if mem c.operation (Operation.cancel ∷ Operation.confirm ∷ [])
      then (required_event (or_else event_id c.event_id) >>= λ event.
          kick_from gateways.kick_member event.telegram_chat_id c event confirmed)
      else raise Error.value_error
