-- ===== src/Application/Notifications.antt =====
-- `ConfirmationNotificationService` of larp_bot/application/notification_services.py: its state, what
-- it uses of libraries, and the steps that its methods share. The children have the methods, and the
-- proofs.
pub mod ChatLinks
pub mod Texts
pub mod Masters
pub mod Success
pub mod Snapshot
pub mod Marking
pub mod Progress
pub mod Retry
pub mod Participants
pub mod Promotions
pub mod MasterNotices
pub mod Participation
pub mod ChatRemoval
pub mod Claims
pub mod Notified
pub mod Told
pub mod Once
pub mod Moved
pub mod Linked
pub mod Confirmed
pub mod Reported
pub mod Live
use Prim.Native.Char.{Char}
use rolebot_hse.Base.{
  ℕ, String, Bool, true, false, Option, none, some, List, [], ◌∷◌, map, is_some, string_eq,
  option_eq, ◌==◌, if◌then◌else◌,
}
use rolebot_hse.Base.Int.{ℤ}
use rolebot_hse.Errors.{Result, ok, err, Error}
use rolebot_hse.Dict.{get, values}
use rolebot_hse.Domain.Event.{Date, Datetime, Event}
use rolebot_hse.Domain.User.{Identity, Button, User, base_of, local_identity}
use rolebot_hse.Store.Users.{claim_delivery}
use rolebot_hse.Application.Effects.{Effect, ◌>>=◌, pure, raise}
use rolebot_hse.Application.Support.{Sending}
use rolebot_hse.Application.Mutations.{World, UserRows, get_event, refuse}

-- `NotificationRecipient` is its user, of which the platform and the id are the local identity.
pub record Letter : Type 0 where
  pub to : Identity
  pub request_id : String
  pub text : String
  pub buttons : List Button

-- The calls of the transport, the latest first, with what came of them, and the other services.
pub record Outbox (S : Type 0) : Type 0 where
  pub attempts : List (Letter × Sending)
  pub rest : S

abbrev pub State : Type 0 → Type 0
State S = World (Outbox S)

-- What `urlsplit` finds in a link; `none` for the absent user name, password and port.
pub record SplitUrl : Type 0 where
  pub scheme : String
  pub username : Option String
  pub password : Option String
  pub port : Option ℕ
  pub hostname : Option String
  pub path : String
  pub query : String
  pub fragment : String

-- Python's library and the regular expressions: `urlsplit` is `none` where it or the reading of the
-- port raises a `ValueError`.
pub record Library : Type 0 where
  pub isspace : Char → Bool
  pub casefold : String → String
  pub urlsplit : String → Option SplitUrl
  pub telegram_chat_path : String → Bool
  pub vk_chat_path : String → Bool
  pub format_game_date : Date → String
  pub format_confirmation_deadline : Datetime → String

-- The participant key under the secret of the service, the transport, which may do anything with a
-- letter on what was tried before, and the gateway that removes a member from a chat, if there is
-- one.
pub record Gateways (S : Type 0) : Type 0 where
  pub participant_key : Identity → String → String
  pub transport : List (Letter × Sending) → Letter → Sending
  pub kick_member : Option (ℤ → ℕ → String → Effect (State S) Bool)

-- `user.last_delivery_operation_id == request_id`
abbrev pub was_told : String → User → Bool
was_told request_id user = (base_of user).last_delivery_operation_id == some request_id

-- The rows of the user repository, which this service always has.
abbrev pub rows_in : Option UserRows → UserRows
rows_in none = []
rows_in (some rows) = rows

-- What the caller of `_deliver` gets.
abbrev pub reached_if : Sending → Result Bool
reached_if Sending.delivered = ok true
reached_if Sending.unreachable = ok false
reached_if Sending.failed = err Error.runtime_error

module _ {S : Type 0} where
  abbrev pub user_rows : State S → UserRows
  user_rows w = rows_in w.users

  abbrev pub attempts_of : State S → List (Letter × Sending)
  attempts_of w = w.rest.attempts

  abbrev pub with_users : State S → UserRows → State S
  with_users w rows = record w { users = some rows }

  -- `await self.users.claim_delivery(...)`, whose result the service does not read
  abbrev pub claim : Identity → String → List Button → Effect (State S) (Unit {0})
  claim identity request_id buttons w =
      (ok tt, with_users w (claim_delivery identity request_id buttons (user_rows w)).0)

  -- `event = await self.events.get(...)`, which has to be there
  abbrev pub found : Option Event → Effect (State S) Event
  found none = refuse
  found (some event) = pure event

  abbrev pub required_event : String → Effect (State S) Event
  required_event event_id = get_event event_id >>= found

  abbrev pub tried : Letter → Sending → State S → State S
  tried letter sending w = record w {
    rest = record (w.rest) { attempts = (letter, sending) ∷ w.rest.attempts };
  }

  -- The identities of `await self.users.list_all()`
  abbrev pub identities_in : State S → List Identity
  identities_in w = map local_identity (values (user_rows w))

module _ {S : Type 0} (gateways : Gateways S) where
  -- `_deliver`: a refused recipient is no failure, any other failure is raised.
  unfoldable pub deliver : Letter → Effect (State S) Bool
  deliver letter w =
      let sending = gateways.transport (attempts_of w) letter in
      (reached_if sending, tried letter sending w)

  -- Letters to one recipient, up to the first that is refused: whether none was, and the request id
  -- of the last that was tried.
  unfoldable pub deliver_all : Option String → List Letter → Effect (State S) (Bool × Option String)
  unfolding deliver
  deliver_all last [] = pure (true, last)
  deliver_all last (letter ∷ letters) = deliver letter >>= λ reached.
      if reached
      then deliver_all (some letter.request_id) letters
      else pure (false, some letter.request_id)

  -- The first user of a game with this participant key.
  unfoldable pub first_with_key : String → String → List User → Option User
  first_with_key event_id key [] = none
  first_with_key event_id key (user ∷ users) =
      let rest = first_with_key event_id key users in
      if gateways.participant_key (local_identity user) event_id == key then some user else rest

  -- The identity that a dict by participant key holds, where the last user of a key counts.
  unfoldable pub last_with_key : String → String → List Identity → Option Identity
  last_with_key event_id key [] = none
  last_with_key event_id key (identity ∷ identities) =
      let rest = last_with_key event_id key identities in
      if is_some rest
      then rest
      else if gateways.participant_key identity event_id == key
      then some identity
      else none
