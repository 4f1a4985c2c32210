-- ===== src/Application/Mutations.antt =====
-- `OrderedMutationService` of larp_bot/application/ordered_mutations.py: its state, the services that
-- it calls, and the calls of the repositories. The children have the operations and the proofs.
pub mod Catalog
pub mod Access
pub mod Promotions
pub mod Passes
pub mod Organiser
pub mod Rosters
pub mod Signup
pub mod Player
pub mod Confirmation
pub mod Apply
pub mod Operations
pub mod Rights
pub mod Guarded
pub mod Entering
pub mod Opening
use rolebot_hse.Base.{ℕ, String, Bool, Option, none, some, List, [], ◌∷◌, string_eq, pair_eq, ◌==◌}
use rolebot_hse.Errors.{Result, ok, err, Error}
use rolebot_hse.Dict.{Dict, get}
use rolebot_hse.Domain.Event.{Date, Datetime, Event}
use rolebot_hse.Domain.Enums.{platform_eq, AttendanceStatus}
use rolebot_hse.Domain.User.{Identity, Button}
use rolebot_hse.Domain.Registration.{Registration}
use rolebot_hse.Domain.Command.{OrderedRegistrationCommand}
use rolebot_hse.Store.Events.State.{MemoryEventRepository}
use rolebot_hse.Store.Registrations.State.{MemoryRegistrationRepository}
use rolebot_hse.Application.Effects.{Effect, raise}

abbrev pub EventRows : Type 0
EventRows = rolebot_hse.Store.Events.State.Rows

abbrev pub RegistrationRows : Type 0
RegistrationRows = rolebot_hse.Store.Registrations.State.Rows

abbrev pub UserRows : Type 0
UserRows = rolebot_hse.Store.Users.Rows

-- The repositories, `users` where the service has one, and the state of the other services.
pub record World (S : Type 0) : Type 0 where
  pub events : MemoryEventRepository
  pub registrations : MemoryRegistrationRepository
  pub users : Option UserRows
  pub rest : S

-- What the service calls and does not define. `participant_key` is the function of security.py under
-- `participant_secret`, if there is one, and `is_admin` the provider of administrators, if there is
-- one. The showcase comes next: it reads the workbooks of old games, and writes and deletes those of
-- games and passes. Last come texts, which read the state and change nothing.
pub record Services (S : Type 0) : Type 0 where
  pub participant_key : Option (Identity → String → String)
  pub is_admin : Option (Identity → Bool)
  pub fields_ok : Event → Bool
  pub uuid5 : String → String
  pub isoformat : Datetime → String
  pub moscow_date : Datetime → Date
  pub legacy_registration_imports : Bool
  pub read_legacy_registrations : Event → Effect (World S) (List Registration)
  pub mirrors_google_tables : Bool
  pub event_table_path : String → String → String
  pub create_public_event_workbook :
      String → Event → List Registration → Effect (World S) (Option String)
  pub replace : Event → List Registration → Effect (World S) (Option (Dict String String))
  pub delete_event_workbook : String → Effect (World S) (Unit {0})
  pub delete_pass_table : String → Effect (World S) (Unit {0})
  pub delete_achievement_presentation : String → Effect (World S) (Unit {0})
  pub replace_pass_table : String → Event → Option (List Registration) → Effect (World S) (Unit {0})
  pub daily_pass_table_path : Date → String
  pub pass_table_exists : String → Effect (World S) Bool
  pub replace_daily_pass_table : String → Date → Effect (World S) (Unit {0})
  pub player_registrations_on_date :
      OrderedRegistrationCommand
      → Date
      → List AttendanceStatus
      → Event
      → List Identity
      → Effect (World S) (List (Event × Registration))
  pub surname_and_name : String → String
  pub confirmation_button : String → Button
  pub removeprefix_at : String → String
  pub event_reference : String → Option Date → String
  pub enlistment_success_text : Event → ℕ → Bool → Option String → World S → String
  pub confirmation_success_text : Event → String → Bool → World S → String

-- The calls of the repositories.
module _ {S : Type 0} where
  abbrev pub with_events : World S → EventRows → World S
  with_events w rows = record w { events = record (w.events) { rows = rows } }

  abbrev pub with_registrations : World S → RegistrationRows → World S
  with_registrations w rows = record w { registrations = record (w.registrations) { rows = rows } }

  abbrev pub get_event : String → Effect (World S) (Option Event)
  get_event event_id w = (ok (get event_id w.events.rows), w)

  abbrev pub on_events : (EventRows → EventRows × Bool) → Effect (World S) Bool
  on_events f w = (ok (f w.events.rows).1, with_events w (f w.events.rows).0)

  abbrev pub stored : {A : Type 0} → World S → Result (EventRows × A) → Result A × World S
  stored w (ok (rows, a)) = (ok a, with_events w rows)
  stored w (err e) = (err e, w)

  -- A method of the event repository that may raise.
  abbrev pub try_events : {A : Type 0} → (EventRows → Result (EventRows × A)) → Effect (World S) A
  try_events f w = stored w (f w.events.rows)

  abbrev pub changed : World S → Result EventRows → Result (Unit {0}) × World S
  changed w (ok rows) = (ok tt, with_events w rows)
  changed w (err e) = (err e, w)

  abbrev pub change_events : (EventRows → Result EventRows) → Effect (World S) (Unit {0})
  change_events f w = changed w (f w.events.rows)

  abbrev pub on_registrations :
      {A : Type 0} → (RegistrationRows → RegistrationRows × A) → Effect (World S) A
  on_registrations f w =
      (ok (f w.registrations.rows).1, with_registrations w (f w.registrations.rows).0)

  abbrev pub kept : {A : Type 0} → World S → Result (RegistrationRows × A) → Result A × World S
  kept w (ok (rows, a)) = (ok a, with_registrations w rows)
  kept w (err e) = (err e, w)

  abbrev pub try_registrations :
      {A : Type 0} → (RegistrationRows → Result (RegistrationRows × A)) → Effect (World S) A
  try_registrations f w = kept w (f w.registrations.rows)

  -- `raise OperationNotAllowed(...)`, `EventNotFound` or `RegistrationNotFound`
  abbrev pub refuse : {A : Type 0} → Effect (World S) A
  refuse = raise Error.domain_error

  -- A failed `assert`.
  abbrev pub fail_assert : {A : Type 0} → Effect (World S) A
  fail_assert = raise Error.assertion_error

  abbrev pub unless : Bool → Effect (World S) (Unit {0}) → Effect (World S) (Unit {0})
  unless Bool.true m w = (ok tt, w)
  unless Bool.false m w = m w
