-- ===== src/Application/Mutations/Opening.antt =====
-- The scheduled opening of the confirmations: who calls for it, and what a stale command does.
use rolebot_hse.Base.{
  String, ◌≡◌, refl, ap, ◌∙◌, Bool, true, false, not, ◌&&◌, ◌||◌, Option, none, some, is_some,
  is_none, string_eq, nat_eq, option_eq, beq_refl, arith, Bool-cases, inl, inr, ◌==◌, ◌!=◌,
}
use rolebot_hse.Errors.{Result, ok}
use rolebot_hse.Dict.{get, put}
use rolebot_hse.Domain.Enums.{
  Platform, platform_eq, Operation, operation_eq, EventStatus, status_eq,
}
use rolebot_hse.Domain.Event.{Datetime, Event}
use rolebot_hse.Domain.Command.{OrderedRegistrationCommand, CommandPayload}
use rolebot_hse.Store.Events.State.{on_event_found}
use rolebot_hse.Store.Events.Schedules.{open_scheduled_confirmation}
use rolebot_hse.Application.Support.{MutationResult, done_if}
use rolebot_hse.Application.Mutations.{World, Services, with_events}
use rolebot_hse.Application.Mutations.Organiser.{
  scheduled_open_confirmation, opening_id, open_if_due, open_on_schedule,
}
use rolebot_hse.Application.Mutations.Apply.{apply}
use rolebot_hse.Application.Mutations.Guarded.{apply-found}

rest_false :
    (a : Option Datetime) (s b : Bool)
    → (is_some a || not s) ≡ false
    → (is_none a && (s && b)) ≡ false
    → b ≡ false
rest_false none s b h n = ground (arith, h, n)
rest_false (some _) s b h n = ground (arith, h, n)

module _ {S : Type 0} (services : Services S) (now : Datetime) where
  -- A result that is told to nobody, with nothing changed.
  abbrev pub IsSilent : World S → Result MutationResult × World S → Type 0
  IsSilent w r = (m : MutationResult) × ((r ≡ (ok m, w)) × (m.notifications_enabled ≡ false))

  -- The game waits for the opening that the command is for.
  abbrev pub is_called_at : String → Datetime → Event → Option Datetime → Option Datetime → Bool
  is_called_at operation_id d e (some opens_at) (some deadline) =
      is_none e.archived_at
      && (e.status == EventStatus.created
          && (operation_id == opening_id services now e.event_id opens_at && d == deadline))
  is_called_at operation_id d e _ _ = false

  abbrev pub is_called : OrderedRegistrationCommand → Datetime → Event → Bool
  is_called c d e = is_called_at c.operation_id d e e.confirmation_open_at e.confirmation_deadline

  open_on_schedule-stale :
      (c : OrderedRegistrationCommand) (w : World S) (e : Event) (d opens_at deadline : Datetime)
      → (c.operation_id == opening_id services now e.event_id opens_at && d == deadline) ≡ false
      → IsSilent w (
          open_on_schedule services now e c.operation_id opens_at deadline
            (CommandPayload.confirmation_deadline d)
            w)
  open_on_schedule-stale c w e d opens_at deadline n =
      rw
        (not_both (c.operation_id == opening_id services now e.event_id opens_at) (d == deadline) n)
        (done_if "Расписание открытия подтверждения было изменено" false, (refl, refl))
    where
      not_both : (a b : Bool) → (a && b) ≡ false → (not a || not b) ≡ true
      not_both a b n = ground (arith, n)

  stale_lem :
      (c : OrderedRegistrationCommand) (w : World S) (e : Event) (d : Datetime)
      (opens_at deadline : Option Datetime)
      → c.payload ≡ CommandPayload.confirmation_deadline d
      → is_called_at c.operation_id d e opens_at deadline ≡ false
      → IsSilent w (open_if_due services now e c opens_at deadline w)
  stale_lem c w e d none none p n = (_, (refl, refl))
  stale_lem c w e d none (some _) p n = (_, (refl, refl))
  stale_lem c w e d (some _) none p n = (_, (refl, refl))
  stale_lem c w e d (some opens_at) (some deadline) p n =
      elim (Bool-cases (is_some e.archived_at || e.status != EventStatus.created)) [
        | inl x ↦ rw x (_, (refl, refl))
        | inr x ↦
            rw (x, p)
              (open_on_schedule-stale c w e d opens_at deadline
                (rest_false e.archived_at (e.status == EventStatus.created) _ x n))
      ]

  -- A scheduled opening that its game does not wait for, be it opened, rescheduled, cancelled or
  -- archived since, tells nobody and changes nothing.
  pub apply-stale_opening :
      (c : OrderedRegistrationCommand) (w : World S) (e : Event) (d : Datetime)
      → get c.event_id w.events.rows ≡ some e
      → c.operation ≡ Operation.scheduled_open_confirmation
      → c.platform ≡ Platform.system
      → c.payload ≡ CommandPayload.confirmation_deadline d
      → is_called c d e ≡ false
      → IsSilent w (apply services now c w)
  unfolding scheduled_open_confirmation
  apply-stale_opening c w e d g o s p n =
      rw (apply-found services now c w e g, o, s)
        (stale_lem c w e d e.confirmation_open_at e.confirmation_deadline p n)

  -- The game after its scheduled opening.
  abbrev pub opened_event : Event → Event
  opened_event e = record e {
    status = EventStatus.confirmation_open;
    confirmation_open_at = none;
    updated_at = now;
  }

  -- A game that waits for this opening, and the schedule that it has.
  pub record IsCalled (c : OrderedRegistrationCommand) (e : Event) (t d : Datetime) : Type 0 where
    pub not_archived : e.archived_at ≡ none
    pub not_opened : e.status ≡ EventStatus.created
    pub scheduled : e.confirmation_open_at ≡ some t
    pub until : e.confirmation_deadline ≡ some d
    pub own_id : e.event_id ≡ c.event_id
    pub expected : c.operation_id ≡ opening_id services now e.event_id t

  not_blocked :
      (c : OrderedRegistrationCommand) (e : Event) (t d : Datetime)
      → IsCalled c e t d
      → (is_some e.archived_at
          || (e.status != EventStatus.created
              || (e.confirmation_open_at != some t || e.confirmation_deadline != some d)))
        ≡ false
  not_blocked c e t d i =
      rw (i.not_archived, i.not_opened, i.scheduled, i.until, beq_refl t, beq_refl d) refl

  is_waiting :
      (c : OrderedRegistrationCommand) (e : Event) (t d : Datetime)
      → IsCalled c e t d
      → (is_some e.archived_at || e.status != EventStatus.created) ≡ false
  is_waiting c e t d i = rw (i.not_archived, i.not_opened) refl

  is_expected :
      (c : OrderedRegistrationCommand) (e : Event) (t d : Datetime)
      → IsCalled c e t d
      → (c.operation_id != opening_id services now e.event_id t || d != d) ≡ false
  is_expected c e t d i =
      rw (i.expected, beq_refl (opening_id services now e.event_id t), beq_refl d) refl

  open_scheduled_lem :
      (c : OrderedRegistrationCommand) (w : World S) (e : Event) (t d : Datetime)
      → get c.event_id w.events.rows ≡ some e
      → IsCalled c e t d
      → open_scheduled_confirmation now e.event_id t d w.events.rows
        ≡ (put e.event_id (opened_event e) w.events.rows, true)
  unfolding open_scheduled_confirmation
  open_scheduled_lem c w e t d g i =
      on_event_found e.event_id _ w.events.rows e (ap (λ x. get x w.events.rows) i.own_id ∙ g)
      ∙ ap (λ (r : Event × Bool). (put e.event_id r.0 w.events.rows, r.1))
          (rw (not_blocked c e t d i) refl)

  -- A scheduled opening that its game waits for opens the confirmations and is announced.
  pub apply-due_opening :
      (c : OrderedRegistrationCommand) (w : World S) (e : Event) (t d : Datetime)
      → get c.event_id w.events.rows ≡ some e
      → c.operation ≡ Operation.scheduled_open_confirmation
      → c.platform ≡ Platform.system
      → c.payload ≡ CommandPayload.confirmation_deadline d
      → IsCalled c e t d
      → apply services now c w ≡ (
        ok (done_if "Установлен Статус «Подтверждение» по расписанию" true),
        with_events w (put e.event_id (opened_event e) w.events.rows),
      )
  unfolding scheduled_open_confirmation
  apply-due_opening c w e t d g o s p i =
      apply-found services now c w e g
      ∙ rw (o, s)
          (ap (λ x. open_if_due services now e c x e.confirmation_deadline w) i.scheduled
            ∙ ap (λ x. open_if_due services now e c (some t) x w) i.until
            ∙ rw (is_waiting c e t d i) (
                ap (λ x. open_on_schedule services now e c.operation_id t d x w) p
                ∙ rw (is_expected c e t d i, open_scheduled_lem c w e t d g i) refl))
