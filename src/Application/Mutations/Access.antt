-- ===== src/Application/Mutations/Access.antt =====
-- Who may change a game, and which rows a player has in it.
use rolebot_hse.Base.{
  ℕ, String, Bool, false, Option, none, some, List, [], ◌∷◌, is_some, any_of, mem, map, or_else,
  nat_eq, pair_eq, if◌then◌else◌,
}
use rolebot_hse.Errors.{ok, err, Error}
use rolebot_hse.Domain.Enums.{platform_eq, AttendanceStatus, attendance_eq}
use rolebot_hse.Domain.Event.{Event}
use rolebot_hse.Domain.Registration.{Registration}
use rolebot_hse.Domain.User.{Identity}
use rolebot_hse.Domain.Command.{OrderedRegistrationCommand}
use rolebot_hse.Store.Users.{identities_for_local_user}
use rolebot_hse.Store.Events.State.{list_leaders}
use rolebot_hse.Store.Registrations.State.{get_registration}
use rolebot_hse.Application.Effects.{Effect, ◌>>=◌, ◌>>◌, pure}
use rolebot_hse.Application.Mutations.{World, Services, get_event, refuse}

-- The order of `status_rank`.
abbrev pub status_rank : AttendanceStatus → ℕ
status_rank AttendanceStatus.cancelled = 0
status_rank AttendanceStatus.waiting = 1
status_rank AttendanceStatus.confirmed = 2

module _ {S : Type 0} (services : Services S) where
  abbrev pub identities_of : OrderedRegistrationCommand → World S → List Identity
  identities_of c w = identities_for_local_user w.users (c.platform, c.platform_user_id)

  abbrev pub is_administrator : List Identity → Bool
  is_administrator identities = elim services.is_admin [
    | none ↦ false
    | some is_admin ↦ any_of is_admin identities
  ]

  unfoldable pub leads_event : OrderedRegistrationCommand → World S → Bool
  leads_event c w =
      any_of (λ identity. mem identity (list_leaders c.event_id w.events)) (identities_of c w)

  unfoldable pub require_event_leader : OrderedRegistrationCommand → Effect (World S) (Unit {0})
  unfolding leads_event
  require_event_leader c w =
      if leads_event c w
      then (ok tt, w)
      else if is_administrator (identities_of c w)
      then (ok tt, w)
      else (err Error.domain_error, w)

  unfoldable pub require_admin : OrderedRegistrationCommand → Effect (World S) (Unit {0})
  require_admin c w =
      if is_administrator (identities_of c w) then (ok tt, w) else (err Error.domain_error, w)

  abbrev pub found : Option Event → Effect (World S) Event
  found none = refuse
  found (some event) = pure event

  unfoldable pub require_event : OrderedRegistrationCommand → Effect (World S) Event
  require_event c = get_event c.event_id >>= found

  unfoldable pub require_active_event_leader : OrderedRegistrationCommand → Effect (World S) Event
  unfolding require_event require_event_leader
  require_active_event_leader c = require_event c >>= λ event.
      if is_some event.archived_at then refuse else (require_event_leader c >> pure event)

  -- The keys of a player's identities in a game: without a secret, the key of the command.
  abbrev pub keys_in : Event → OrderedRegistrationCommand → List Identity → List String
  keys_in event c identities = elim services.participant_key [
    | none ↦ or_else c.participant_key "" ∷ []
    | some key ↦ map (λ identity. key identity event.event_id) identities
  ]

  abbrev pub present : List (Option Registration) → List Registration
  present [] = []
  present (none ∷ rows) = present rows
  present (some row ∷ rows) = row ∷ present rows

  abbrev pub actor_identities : OrderedRegistrationCommand → World S → List Identity
  actor_identities c w = elim services.participant_key [
    | none ↦ (c.platform, c.platform_user_id) ∷ []
    | some _ ↦ identities_of c w
  ]

  unfoldable pub actor_registrations :
      Event → OrderedRegistrationCommand → Effect (World S) (List Identity × List Registration)
  actor_registrations event c w =
      let identities = actor_identities c w in
      (
        ok (
          identities,
          present (
              map (λ key. get_registration event.event_id key w.registrations.rows)
                (keys_in event c identities)),
        ),
        w,
      )
