-- ===== src/Application/Mutations/Confirmation.antt =====
-- The command of `apply` that confirms a participation, and replaces one in another game of the day.
use rolebot_hse.Base.{
  String, Bool, true, false, not, ◌&&◌, Option, none, some, List, [], ◌∷◌, is_some, mem, any_of,
  nat_eq, string_eq, option_eq, ◌==◌, ◌!=◌, if◌then◌else◌,
}
use rolebot_hse.Errors.{Error}
use rolebot_hse.Domain.Enums.{AttendanceStatus, attendance_eq}
use rolebot_hse.Domain.Event.{Date, Datetime, Event}
use rolebot_hse.Domain.User.{Identity}
use rolebot_hse.Domain.Registration.{Registration}
use rolebot_hse.Domain.Command.{OrderedRegistrationCommand, CommandPayload}
use rolebot_hse.Domain.Queues.{keys_of, main_roster}
use rolebot_hse.Store.Registrations.State.{get_registration}
use rolebot_hse.Store.Registrations.Updates.{confirm}
use rolebot_hse.Store.Registrations.Linked.{confirm_linked}
use rolebot_hse.Application.Effects.{Effect, ◌>>=◌, ◌>>◌, pure, raise, read}
use rolebot_hse.Application.Support.{MutationResult, done}
use rolebot_hse.Application.Mutations.{
  World, Services, get_event, try_registrations, refuse, fail_assert,
}
use rolebot_hse.Application.Mutations.Catalog.{ensure_migrated}
use rolebot_hse.Application.Mutations.Promotions.{record_promotions, key_of}
use rolebot_hse.Application.Mutations.Signup.{effective_registration}
use rolebot_hse.Application.Mutations.Player.{Actor, is_cancelled, show}

-- The participation that a confirmation replaces: `replaced_event` and what goes with it.
pub record Replaced : Type 0 where
  pub event : Option Event
  pub registration : Option Registration
  pub participant_key : Option String
  pub participant_keys : List String

abbrev pub nothing_replaced : Replaced
nothing_replaced = record {
  event = none;
  registration = none;
  participant_key = none;
  participant_keys = [];
}

abbrev pub is_confirmed : Option Registration → Bool
is_confirmed none = false
is_confirmed (some r) = r.attendance_status == AttendanceStatus.confirmed

-- `conflict_ids and conflict_ids != {replaced_event_id}`
abbrev pub has_other_conflict : Option String → List (Event × Registration) → Bool
has_other_conflict replaced conflicts = any_of (λ (e, r). replaced != some e.event_id) conflicts

abbrev pub no_conflict : List (Event × Registration) → Bool
no_conflict [] = true
no_conflict (_ ∷ _) = false

abbrev pub id_of : Option Event → Option String
id_of none = none
id_of (some e) = some e.event_id

module _ {S : Type 0} (services : Services S) (now : Datetime) where
  -- `catalog.get` for each identity: the calls that `gather` makes are taken one after another.
  abbrev pub rows_in :
      Event → (Identity → String → String) → List Identity → Effect (World S) (List Registration)
  rows_in event key [] = pure []
  rows_in event key (identity ∷ identities) =
      ensure_migrated services now event
      >> read
          (λ w. get_registration event.event_id (key identity event.event_id) w.registrations.rows)
      >>= λ row. rows_in event key identities >>= λ rows.
          pure (elim row [ none ↦ rows | some r ↦ r ∷ rows ])

  abbrev pub replace_rows :
      Event
      → OrderedRegistrationCommand
      → (Identity → String → String)
      → Actor
      → Bool
      → List Registration
      → Replaced
  replace_rows event c key a already rows =
      let registration = effective_registration rows in
      if not (is_confirmed registration) && not already
      then record nothing_replaced { registration = registration }
      else record {
        event = some event;
        registration = registration;
        participant_key =
            if a.linked
            then key_of registration
            else some (key (c.platform, c.platform_user_id) event.event_id);
        participant_keys = keys_of rows;
      }

  abbrev pub replace_event :
      Event
      → OrderedRegistrationCommand
      → (Identity → String → String)
      → Actor
      → List Identity
      → Bool
      → Option Event
      → Effect (World S) Replaced
  replace_event event c key a identities already none = refuse
  replace_event event c key a identities already (some other) =
      if other.event_id == event.event_id
      then refuse
      else if other.game_date != event.game_date
      then refuse
      else (rows_in other key identities >>= λ (rows : List Registration).
          pure (replace_rows other c key a already rows))

  abbrev pub replace_id :
      Event
      → OrderedRegistrationCommand
      → (Identity → String → String)
      → Actor
      → List Identity
      → Bool
      → Option String
      → Effect (World S) Replaced
  replace_id event c key a identities already none = pure nothing_replaced
  replace_id event c key a identities already (some event_id) =
      get_event event_id >>= replace_event event c key a identities already

  abbrev pub replace_on :
      Event
      → OrderedRegistrationCommand
      → Actor
      → List Identity
      → Bool
      → Option String
      → Option Date
      → Option (Identity → String → String)
      → Effect (World S) Replaced
  replace_on event c a identities already replaced none key =
      if is_some replaced then refuse else pure nothing_replaced
  replace_on event c a identities already replaced (some game_date) none = raise Error.runtime_error
  replace_on event c a identities already replaced (some game_date) (some key) =
      services.player_registrations_on_date c game_date (AttendanceStatus.confirmed ∷ []) event
        identities
      >>= λ conflicts.
          if has_other_conflict replaced conflicts
          then refuse
          else if no_conflict conflicts && (is_some replaced && not already)
          then refuse
          else replace_id event c key a identities already replaced

  abbrev pub promote_replaced :
      OrderedRegistrationCommand → Replaced → Option Event → Effect (World S) Replaced
  promote_replaced c r none = pure r
  promote_replaced c r (some other) =
      record_promotions now other c r.registration >>= λ (other' : Event).
      pure (record r { event = some other' })

  abbrev pub confirm_rows :
      Event → OrderedRegistrationCommand → Actor → String → Replaced → Effect (World S) Bool
  confirm_rows event c a wish r =
      if a.linked
      then try_registrations (
          confirm_linked now event.event_id c.operation_id a.actor_keys wish (id_of r.event)
            r.participant_keys)
      else try_registrations
          (confirm now event.event_id c.operation_id a.key wish (id_of r.event) r.participant_key)

  abbrev pub show_replaced : Option Event → Effect (World S) (Unit {0})
  show_replaced none = pure tt
  show_replaced (some other) = show services now other >> pure tt

  abbrev pub confirmed_result :
      Actor → String → Replaced → Event × List Registration → Effect (World S) MutationResult
  confirmed_result a wish r (event, rows) =
      let main_keys = keys_of (main_roster event rows) in
      read (λ w.
        record (done (
          services.confirmation_success_text event wish
            (any_of (λ key. mem key main_keys) a.actor_keys) w)) {
              replaced_event_id = id_of r.event;
            })

  abbrev pub already_applied : String → Registration → Bool
  already_applied operation_id r =
      r.last_operation_id == operation_id && r.attendance_status == AttendanceStatus.confirmed

  abbrev pub confirm_with :
      Event
      → OrderedRegistrationCommand
      → Actor
      → List Identity
      → CommandPayload
      → Effect (World S) MutationResult
  confirm_with event c a identities (CommandPayload.character_wish wish replaced) =
      replace_on event c a identities (already_applied c.operation_id a.registration) replaced
        event.game_date services.participant_key
      >>= λ (r : Replaced). promote_replaced c r r.event >>= λ (r' : Replaced).
          confirm_rows event c a wish r'
          >> show_replaced r'.event
          >> show services now event
          >>= confirmed_result a wish r'
  confirm_with event c a identities _ = fail_assert

  unfoldable pub confirm_participation :
      Event → OrderedRegistrationCommand → Actor → List Identity → Effect (World S) MutationResult
  unfolding ensure_migrated record_promotions effective_registration
  confirm_participation event c a identities =
      if is_cancelled a.registration then refuse else confirm_with event c a identities c.payload
