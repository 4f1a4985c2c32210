-- ===== src/Application/Worker.antt =====
-- `OrderedWorker` of larp_bot/application/worker.py: its state and the services it calls. Reply,
-- Dispatch and Handle have what it does with one command, Drain has the loop, and the other children
-- have the proofs.
pub mod Reply
pub mod Dispatch
pub mod Handle
pub mod Drain
pub mod Log
pub mod Fifo
pub mod Receipts
pub mod Outcome
pub mod Delivery
use rolebot_hse.Base.{
  ℕ, String, Bool, true, false, not, ◌&&◌, ◌||◌, Option, none, some, List, [], ◌∷◌, ◌++◌, ◌==◌,
  ◌!=◌, string_eq, nat_eq, option_eq, pair_eq, mem, is_some, is_none, or_else, if◌then◌else◌,
}
use rolebot_hse.Base.Text.{◌&◌}
use rolebot_hse.Base.Int.{ℤ, int_eq, pos}
use rolebot_hse.Errors.{Result, ok, err, Error}
use rolebot_hse.Dict.{get}
use rolebot_hse.Domain.Enums.{Platform, platform_eq, Operation, operation_eq}
use rolebot_hse.Domain.Event.{Date, Event}
use rolebot_hse.Domain.User.{Button, Identity, User, base_of}
use rolebot_hse.Domain.Command.{OrderedRegistrationCommand, CommandPayload, queue_group_id}
use rolebot_hse.Store.Users.{Rows, claim_delivery}
use rolebot_hse.Application.Effects.{
  Effect, ◌>>=◌, ◌>>◌, pure, raise, read, when, configured, if_present,
}
use rolebot_hse.Application.Support.{Sending, MutationResult}

pub record QueueEnvelope : Type 0 where
  pub command : OrderedRegistrationCommand
  pub receipt_handle : String

-- A message that the transport accepted.
pub record Message : Type 0 where
  pub recipient : Identity
  pub request_id : String
  pub text : String
  pub buttons : List Button

-- The users, what was sent, and the rest of the state, which the services share.
pub record World (S : Type 0) : Type 0 where
  pub users : Rows
  pub sent : List Message
  pub rest : S

-- The services that the worker calls, as records of their methods.
pub record Statistics (S : Type 0) : Type 0 where
  pub sync_profile : OrderedRegistrationCommand → Effect (World S) String
  pub apply : OrderedRegistrationCommand → Effect (World S) String

pub record Administration (S : Type 0) : Type 0 where
  pub create_daily_pass_table : Date → Effect (World S) (Unit {0})
  pub refresh_event_tables : String → Option (Identity × ℤ) → Effect (World S) Event
  pub mirrors_google_tables : Bool

pub record Notifications (S : Type 0) : Type 0 where
  pub notify : OrderedRegistrationCommand → Effect (World S) (Unit {0})
  pub notify_confirming_participant :
      OrderedRegistrationCommand → String → List Button → Effect (World S) (Unit {0})
  pub kick_cancelled_participant :
      OrderedRegistrationCommand → Option String → Bool → Effect (World S) (Unit {0})
  pub notify_reserve_promotion :
      OrderedRegistrationCommand → Option String → Effect (World S) (Unit {0})
  pub notify_confirmed_link_promotion :
      OrderedRegistrationCommand → Option String → Effect (World S) (Unit {0})
  pub notify_masters_of_replaced_participation :
      OrderedRegistrationCommand → String → Effect (World S) (Unit {0})
  pub notify_removed_participants : OrderedRegistrationCommand → Effect (World S) (Unit {0})
  pub notify_sifted_participants : OrderedRegistrationCommand → Effect (World S) (Unit {0})
  pub notify_masters_of_cancellation : OrderedRegistrationCommand → Effect (World S) (Unit {0})
  pub notify_capacity_promotions : OrderedRegistrationCommand → Effect (World S) (Unit {0})
  pub notify_masters_of_participation : OrderedRegistrationCommand → Effect (World S) (Unit {0})

pub record Mutations (S : Type 0) : Type 0 where
  pub apply : OrderedRegistrationCommand → Effect (World S) MutationResult
  pub require_event : OrderedRegistrationCommand → Effect (World S) Event
  pub require_active_event_leader : OrderedRegistrationCommand → Effect (World S) Event

-- `send` is the transport, `delete` the consumer's. `domain_text` is the text of the `DomainError`
-- that a command was refused with, and `tables_text` the message with the links of a game's tables.
pub record Services (S : Type 0) : Type 0 where
  pub mutations : Mutations S
  pub notifications : Option (Notifications S)
  pub statistics : Option (Statistics S)
  pub scheduled_game_closing : Option (OrderedRegistrationCommand → Effect (World S) String)
  pub administration : Option (Administration S)
  pub send : Message → World S → Sending
  pub delete : String → Effect (World S) (Unit {0})
  pub domain_text : OrderedRegistrationCommand → World S → String
  pub tables_text : Event → String

-- The local variables of `_drain` that a handler of an exception may still read.
pub record Frame (S : Type 0) : Type 0 where
  pub world : World S
  pub text : String
  pub enabled : Bool
  pub delivered : Bool
  pub buttons : List Button
