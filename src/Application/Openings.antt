-- ===== src/Application/Openings.antt =====
-- `ScheduledConfirmationOpeningDispatcher` of larp_bot/application/confirmation_openings.py, and what
-- the mutations make of the commands that it publishes.
use rolebot_hse.Base.{
  ℕ, zero, suc, String, ◌≡◌, refl, ap, ◌∙◌, Bool, true, ◌&&◌, Option, none, some, List, [], ◌∷◌,
  map, length, take, keep_if, is_some, is_none, string_eq, nat_eq, option_eq, ◌==◌, arith,
}
use rolebot_hse.Errors.{ok}
use rolebot_hse.Dict.{get, put}
use rolebot_hse.Domain.Enums.{Operation, EventStatus, status_eq}
use rolebot_hse.Domain.Event.{Datetime, Event, ScheduledLifecycleEvent}
use rolebot_hse.Domain.Command.{OrderedRegistrationCommand, CommandPayload}
use rolebot_hse.Store.Events.Listing.{
  is_due, to_lifecycle, confirmation_opening_due, list_due_confirmation_openings,
}
use rolebot_hse.Store.Publisher.{Commands, publish}
use rolebot_hse.Application.GameClosings.Actions.{system_command}
use rolebot_hse.Application.Support.{done_if}
use rolebot_hse.Application.Mutations.{World, Services, EventRows, with_events}
use rolebot_hse.Application.Mutations.Organiser.{opening_id}
use rolebot_hse.Application.Mutations.Apply.{apply}
use rolebot_hse.Application.Mutations.Opening.{IsCalled, opened_event, apply-due_opening}

-- The condition on the events that the caller hands over.
abbrev pub is_opening_due : Datetime → ScheduledLifecycleEvent → Bool
is_opening_due opened_by e =
    is_due e.confirmation_open_at opened_by
    && (is_some e.confirmation_deadline
        && (is_none e.archived_at && e.status == EventStatus.created))

both : (a b : Bool) → (a && b) ≡ true → (a ≡ true) × (b ≡ true)
both a b h = (ground (arith, h), ground (arith, h))

abbrev no_events : List ScheduledLifecycleEvent
no_events = []

take-nil : (n : ℕ) → take n no_events ≡ no_events
take-nil zero = refl
take-nil (suc n) = refl

absent : (o : Option Datetime) → is_none o ≡ true → o ≡ none
absent none h = refl
absent (some _) h = cc

module _ {S : Type 0} (services : Services S) (now : Datetime) where
  abbrev pub opening_command : String → Datetime → Datetime → OrderedRegistrationCommand
  opening_command event_id opens_at deadline =
      record (system_command now event_id (opening_id services now event_id opens_at)
        Operation.scheduled_open_confirmation) {
          payload = CommandPayload.confirmation_deadline deadline;
        }

  abbrev pub publish_opening : String → Option Datetime → Option Datetime → Commands → Commands
  publish_opening event_id (some opens_at) (some deadline) commands =
      publish (opening_command event_id opens_at deadline) commands
  publish_opening event_id _ _ commands = commands

  unfoldable pub publish_each : List ScheduledLifecycleEvent → Commands → Commands
  publish_each [] commands = commands
  publish_each (e ∷ es) commands =
      publish_each es
        (publish_opening e.event_id e.confirmation_open_at e.confirmation_deadline commands)

  abbrev pub due_openings :
      Datetime
      → ℕ
      → Option (List ScheduledLifecycleEvent)
      → EventRows
      → List ScheduledLifecycleEvent
  due_openings opened_by limit none rows =
      map to_lifecycle (list_due_confirmation_openings opened_by limit rows)
  due_openings opened_by limit (some events) rows =
      take limit (keep_if (is_opening_due opened_by) events)

  -- The commands after it, and the number that it returns.
  unfoldable pub dispatch_due :
      Datetime → ℕ → Option (List ScheduledLifecycleEvent) → EventRows → Commands → Commands × ℕ
  unfolding publish_each
  dispatch_due opened_by limit due_events rows commands =
      let due = due_openings opened_by limit due_events rows in
      (publish_each due commands, length due)

  opening-IsCalled :
      (e : Event) (t d opened_by : Datetime)
      → e.confirmation_open_at ≡ some t
      → e.confirmation_deadline ≡ some d
      → confirmation_opening_due opened_by e ≡ true
      → IsCalled services now (opening_command e.event_id t d) e t d
  unfolding confirmation_opening_due
  opening-IsCalled e t d opened_by s u h =
      let on_time = both (is_due e.confirmation_open_at opened_by) _ h in
      let with_deadline = both (is_some e.confirmation_deadline) _ on_time.1 in
      let kept = both (is_none e.archived_at) _ with_deadline.1 in
      record {
        not_archived = absent e.archived_at kept.0;
        not_opened = (status_eq.beq_iff e.status EventStatus.created).0 kept.1;
        scheduled = s;
        until = u;
        own_id = refl;
        expected = refl;
      }

  dispatch-opening :
      (e : Event) (t d opened_by : Datetime) (limit : ℕ) (rows : EventRows)
      → e.confirmation_open_at ≡ some t
      → e.confirmation_deadline ≡ some d
      → confirmation_opening_due opened_by e ≡ true
      → dispatch_due opened_by (suc limit) (some (to_lifecycle e ∷ [])) rows []
        ≡ (opening_command e.event_id t d ∷ [], 1)
  unfolding dispatch_due confirmation_opening_due publish
  dispatch-opening e t d opened_by limit rows s u h =
      rw (h, take-nil limit)
        (ap (λ x. (publish_opening e.event_id x e.confirmation_deadline [], 1)) s
          ∙ ap (λ x. (publish_opening e.event_id (some t) x [], 1)) u)

  -- A game of the store whose confirmations are due to open: the dispatcher, handed
  -- this game over, publishes one command for it, and this command, applied to the store, opens the
  -- confirmations and is announced.
  pub dispatch-apply :
      (e : Event) (t d opened_by : Datetime) (limit : ℕ) (w : World S)
      → get e.event_id w.events.rows ≡ some e
      → e.confirmation_open_at ≡ some t
      → e.confirmation_deadline ≡ some d
      → confirmation_opening_due opened_by e ≡ true
      → (dispatch_due opened_by (suc limit) (some (to_lifecycle e ∷ [])) w.events.rows []
          ≡ (opening_command e.event_id t d ∷ [], 1))
        × (apply services now (opening_command e.event_id t d) w ≡ (
          ok (done_if "Установлен Статус «Подтверждение» по расписанию" true),
          with_events w (put e.event_id (opened_event services now e) w.events.rows),
        ))
  dispatch-apply e t d opened_by limit w g s u h = (
    dispatch-opening e t d opened_by limit w.events.rows s u h,
    apply-due_opening services now (opening_command e.event_id t d) w e t d g refl refl refl
        (opening-IsCalled e t d opened_by s u h),
  )
