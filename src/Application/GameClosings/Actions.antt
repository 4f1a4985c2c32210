-- ===== src/Application/GameClosings/Actions.antt =====
-- The state and the calls of `ScheduledGameClosingService`: an action returns or raises, and works
-- on the event repository, the command queue and the records of calls to other services.
pub use rolebot_hse.Application.Effects.{continue, ◌>>=◌, pure, raise, bind_ok, bind_err}
use rolebot_hse.Application.Effects.{Effect}
pub use rolebot_hse.Application.Support.{Sending}
use rolebot_hse.Base.{String, Bool, Option, none, List, [], string_eq, option_eq}
use rolebot_hse.Base.Text.{◌&◌, decimal}
use rolebot_hse.Errors.{Result, ok, err}
use rolebot_hse.Dict.{get}
use rolebot_hse.Domain.Enums.{Platform, platform_eq, platform_value, Operation, operation_eq}
use rolebot_hse.Domain.Event.{Date, Datetime, Event}
use rolebot_hse.Domain.Command.{OrderedRegistrationCommand, CommandPayload, ReplyContext}
use rolebot_hse.Store.Events.State.{Rows, Identity, MemoryEventRepository}
use rolebot_hse.Store.Publisher.{Commands, publish}

-- What the service calls and does not define: the hash of `uuid5`, the ISO form of a moment, the
-- statistics and administration services and the messenger. Each call's outcome is given by its
-- arguments, and the calls made are recorded in the state below. `add_game` has the event id and
-- the operation id; `send` the recipient and the request id. Where the closing service has no
-- administration, `refresh_daily_pass_table` is the function that only returns.
pub record Services : Type 0 where
  pub uuid5 : String → String
  pub isoformat : Datetime → String
  pub add_game : String → String → Result (Unit {0})
  pub refresh_daily_pass_table : Option Date → Result (Unit {0})
  pub send : Identity → String → Sending

-- `added` and `sent` record the calls of `add_game` and `send` that did not raise.
pub record World : Type 0 where
  pub repository : MemoryEventRepository
  pub commands : Commands
  pub added : List (String × String)
  pub sent : List (Identity × String)

-- A method returns a text or raises; what it wrote before stays.
abbrev pub Action : Type 0 → Type 0
Action A = Effect World A

-- `await self.events.get(event_id)`
abbrev pub get_event : String → Action (Option Event)
get_event event_id w = (ok (get event_id w.repository.rows), w)

abbrev pub with_rows : World → Rows → World
with_rows w rows = record w { repository = record (w.repository) { rows = rows } }

-- A method of the event repository that returns a Boolean, and one that may raise.
abbrev pub on_rows : (Rows → Rows × Bool) → Action Bool
on_rows f w = (ok (f w.repository.rows).1, with_rows w (f w.repository.rows).0)

abbrev pub or_raise : (Rows → Result Rows) → Action (Unit {0})
or_raise f w = elim (f w.repository.rows) [
  | ok rows ↦ (ok tt, with_rows w rows)
  | err e ↦ (err e, w)
]

abbrev pub publish_command : OrderedRegistrationCommand → Action (Unit {0})
publish_command command w = (ok tt, record w { commands = publish command w.commands })

abbrev pub no_reply : ReplyContext
no_reply = record {
  chat_id = none;
  peer_id = none;
  text_success = "";
  text_failure = "";
  buttons = [];
}

-- `ScheduledGameClosingService._command`, at a reading of the clock
abbrev pub system_command : Datetime → String → String → Operation → OrderedRegistrationCommand
system_command now event_id operation_id operation = record {
  operation_id = operation_id;
  event_id = event_id;
  operation = operation;
  platform = Platform.system;
  platform_user_id = 0;
  participant_key = none;
  identity_group = none;
  payload = CommandPayload.empty;
  reply_context = no_reply;
  created_at = now;
}

-- `ScheduledGameClosingService._recipient`
unfoldable pub recipient_of : Identity → String
unfolding platform_value
recipient_of (platform, user_id) = platform_value platform & ":" & decimal user_id
