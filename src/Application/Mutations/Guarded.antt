-- ===== src/Application/Mutations/Guarded.antt =====
-- Commands that `apply` refuses before it changes anything.
use rolebot_hse.Base.{
  String, ◌≡◌, refl, ap, ◌∙◌, true, false, some, [], ◌∷◌, is_some, mem, string_eq, option_eq,
  Bool-cases, inl, inr, ◌==◌, ◌&&◌, All,
}
use rolebot_hse.Errors.{err, Error}
use rolebot_hse.Dict.{get}
use rolebot_hse.Domain.Enums.{platform_eq, Operation, operation_eq, EventStatus, status_eq}
use rolebot_hse.Domain.Event.{Datetime, Event}
use rolebot_hse.Domain.Command.{OrderedRegistrationCommand}
use rolebot_hse.Domain.User.{Identity}
use rolebot_hse.Store.Users.{identities_for_local_user}
use rolebot_hse.Application.Mutations.Rights.{
  IsNoMaster, IsNoMaster-leads_event, IsNoMaster-is_administrator, IsForeign, IsForeign-mem,
}
use rolebot_hse.Application.Mutations.{World, Services}
use rolebot_hse.Application.Mutations.Catalog.{ensure_migrated}
use rolebot_hse.Application.Mutations.Access.{
  leads_event, is_administrator, identities_of, require_event_leader, require_admin,
  actor_registrations, actor_identities, keys_in,
}
use rolebot_hse.Application.Mutations.Organiser.{unarchive_event, delete_archived}
use rolebot_hse.Application.Mutations.Apply.{apply, apply_to, keyed, administrative_operations}
use rolebot_hse.Application.Mutations.Operations.{
  archive_operations, organiser_operations, row_operations, not_in_two, apart_in, last_of,
  row-plain, organiser-cases, administrative-apart,
}

module _ {S : Type 0} (services : Services S) (now : Datetime) where
  pub apply-found :
      (c : OrderedRegistrationCommand) (w : World S) (e : Event)
      → get c.event_id w.events.rows ≡ some e
      → apply services now c w ≡ apply_to services now c (some e) w
  unfolding apply
  apply-found c w e g = rw g refl

  -- A game in the archive is frozen: a command that neither puts it into the archive nor takes it out
  -- or deletes it, and that is no scheduled opening, is refused and changes nothing.
  pub apply-archived :
      (c : OrderedRegistrationCommand) (w : World S) (e : Event)
      → get c.event_id w.events.rows ≡ some e
      → is_some e.archived_at ≡ true
      → mem c.operation
          (Operation.scheduled_open_confirmation ∷ Operation.archive_event ∷ archive_operations)
        ≡ false
      → apply services now c w ≡ (err Error.domain_error, w)
  apply-archived c w e g a m =
      let first =
        not_in_two c.operation Operation.scheduled_open_confirmation Operation.archive_event
          archive_operations m in
      let second =
        not_in_two c.operation Operation.unarchive_event Operation.delete_event [] first.1.1 in
      apply-found c w e g ∙ rw (first.0, second.0, second.1.0, a, first.1.0) refl

  apply-not_leader :
      (c : OrderedRegistrationCommand) (w : World S) (e : Event)
      → get c.event_id w.events.rows ≡ some e
      → is_some e.archived_at ≡ false
      → mem c.operation administrative_operations ≡ true
      → leads_event services c w ≡ false
      → is_administrator services (identities_of services c w) ≡ false
      → apply services now c w ≡ (err Error.domain_error, w)
  unfolding require_event_leader
  apply-not_leader c w e g a m l d =
      apply-found c w e g
      ∙ rw
          (
            apart_in c.operation Operation.scheduled_open_confirmation administrative_operations m
                refl,
            apart_in c.operation Operation.unarchive_event administrative_operations m refl,
            apart_in c.operation Operation.delete_event administrative_operations m refl,
            a,
            m,
            l,
            d,
          )
          refl

  -- Only an administrator takes a game out of the archive or deletes it: the same command of anyone
  -- else, on any game that is there, is refused and changes nothing.
  apply-not_administrator :
      (c : OrderedRegistrationCommand) (w : World S) (e : Event)
      → get c.event_id w.events.rows ≡ some e
      → mem c.operation archive_operations ≡ true
      → is_administrator services (identities_of services c w) ≡ false
      → apply services now c w ≡ (err Error.domain_error, w)
  unfolding require_admin unarchive_event delete_archived
  apply-not_administrator c w e g m d =
      apply-found c w e g
      ∙ rw (apart_in c.operation Operation.scheduled_open_confirmation archive_operations m refl)
          (elim (Bool-cases (c.operation == Operation.unarchive_event)) [
            | inl u ↦ rw (u, d) refl
            | inr u ↦ rw (u, (last_of c.operation u m), d) refl
          ])

  -- A command of those who run a game, on any game that is there, by an author none of whose profiles
  -- is among the leaders that the store has for this game or is an administrator: it is refused and
  -- changes nothing. The one exception is a repeated archiving of a game in the archive.
  pub apply-unauthorised :
      (c : OrderedRegistrationCommand) (w : World S) (e : Event)
      → get c.event_id w.events.rows ≡ some e
      → mem c.operation organiser_operations ≡ true
      → (is_some e.archived_at && c.operation == Operation.archive_event) ≡ false
      → All
          (IsNoMaster services c.event_id w)
          (identities_for_local_user w.users (c.platform, c.platform_user_id))
      → apply services now c w ≡ (err Error.domain_error, w)
  apply-unauthorised c w e g m x p = elim (organiser-cases c.operation m) [
    | inl a ↦ apply-not_administrator c w e g a (IsNoMaster-is_administrator services c w p)
    | inr a ↦ elim (Bool-cases (is_some e.archived_at)) [
      | inl old ↦ apply-archived c w e g old (administrative-apart c.operation a (rw old at x))
      | inr current ↦
          apply-not_leader c w e g current a (IsNoMaster-leads_event services c w p)
            (IsNoMaster-is_administrator services c w p)
    ]
  ]

  foreign_key :
      (c : OrderedRegistrationCommand) (w : World S) (e : Event) (key : String)
      (participant_key : Identity → String → String)
      → services.participant_key ≡ some participant_key
      → e.event_id ≡ c.event_id
      → All
          (IsForeign participant_key c.event_id key)
          (identities_for_local_user w.users (c.platform, c.platform_user_id))
      → mem key (keys_in services e c (actor_identities services c w)) ≡ false
  foreign_key c w e key participant_key s own n =
      rw (s, own) (IsForeign-mem participant_key c.event_id key (identities_of services c w) n)

  -- A change of a wish or an answer, or a cancellation, in a game that is stored under its own id, is
  -- not archived and has its rows migrated: with a key that none of the author's profiles has in this
  -- game it is refused, and changes nothing.
  pub apply-foreign_key :
      (c : OrderedRegistrationCommand) (w : World S) (e : Event) (key : String)
      (participant_key : Identity → String → String)
      → services.participant_key ≡ some participant_key
      → get c.event_id w.events.rows ≡ some e
      → e.event_id ≡ c.event_id
      → is_some e.archived_at ≡ false
      → is_some e.registrations_migrated_at ≡ true
      → mem c.operation row_operations ≡ true
      → c.participant_key ≡ some key
      → All
          (IsForeign participant_key c.event_id key)
          (identities_for_local_user w.users (c.platform, c.platform_user_id))
      → apply services now c w ≡ (err Error.domain_error, w)
  unfolding ensure_migrated actor_registrations
  apply-foreign_key c w e key participant_key s g own a r m k n =
      let foreign = foreign_key c w e key participant_key s own n in
      let plain = row-plain c.operation m in
      let other = λ (a : Operation) (n : mem a row_operations ≡ false).
        apart_in c.operation a row_operations m n in
      apply-found c w e g
      ∙ rw
          (
            other Operation.scheduled_open_confirmation refl,
            other Operation.unarchive_event refl,
            other Operation.delete_event refl,
            a,
            plain.0,
            plain.1,
            r,
            other Operation.remove_waiting_participants refl,
            other Operation.promote_reserve_participant refl,
          )
          (ap (λ o. keyed services now e c o w) k
            ∙ rw
                (
                  other Operation.update_profile refl,
                  other Operation.enlist refl,
                  other Operation.confirm refl,
                  other Operation.remove_participant refl,
                  foreign,
                )
                refl)

  -- A confirmation in a game that is not archived and whose rows are migrated, while confirmations
  -- are not open, is refused and changes nothing.
  apply-confirm-closed :
      (c : OrderedRegistrationCommand) (w : World S) (e : Event) (key : String)
      → get c.event_id w.events.rows ≡ some e
      → is_some e.archived_at ≡ false
      → is_some e.registrations_migrated_at ≡ true
      → c.operation ≡ Operation.confirm
      → c.participant_key ≡ some key
      → (e.status == EventStatus.confirmation_open) ≡ false
      → apply services now c w ≡ (err Error.domain_error, w)
  unfolding ensure_migrated
  apply-confirm-closed c w e key g a r o k n = apply-found c w e g ∙ rw (o, a, r, k, n) refl
