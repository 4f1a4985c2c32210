-- ===== src/Application/GameClosings/Dispatcher.antt =====
-- `ScheduledGameClosingDispatcher` of larp_bot/application/game_closings.py: the first commands of
-- the closings that are due.
use rolebot_hse.Base.{
  ℕ, String, ◌≡◌, refl, ap, ◌∙◌, inl, inr, Bool, true, false, not, Bool-cases, ◌&&◌, ◌||◌, Option,
  none, some, List, [], ◌∷◌, ◌++◌, map, length, take, keep_if, all_of, is_some, is_none, string_eq,
  beq_refl, ◌!=◌, arith,
}
use rolebot_hse.Domain.Enums.{Operation}
use rolebot_hse.Domain.Event.{Datetime, ScheduledLifecycleEvent}
use rolebot_hse.Domain.Command.{OrderedRegistrationCommand}
use rolebot_hse.Store.Events.State.{Rows}
use rolebot_hse.Store.Events.Listing.{is_due, to_lifecycle, list_due_scheduled_closings}
use rolebot_hse.Store.Publisher.{Commands, id_of, publish}
use rolebot_hse.Application.GameClosings.{closing_id}
use rolebot_hse.Application.GameClosings.Actions.{Services, system_command}

-- The condition on the events that the caller hands over.
abbrev pub is_closing_due : Datetime → ScheduledLifecycleEvent → Bool
is_closing_due closed_by e =
    is_due e.scheduled_close_at closed_by
    && (is_none e.scheduled_close_completed_at
        && (is_none e.archived_at || is_some e.scheduled_close_operation_id))

abbrev pub due_closings :
    Datetime → ℕ → Option (List ScheduledLifecycleEvent) → Rows → List ScheduledLifecycleEvent
due_closings closed_by limit none rows =
    map to_lifecycle (list_due_scheduled_closings closed_by limit rows)
due_closings closed_by limit (some events) rows =
    take limit (keep_if (is_closing_due closed_by) events)

-- No command of the queue has this id.
abbrev is_new : String → Commands → Bool
is_new id commands = all_of (λ existing. id_of existing != id) commands

is_new-append :
    (id : String) (cs : Commands) (c : OrderedRegistrationCommand)
    → is_new id (cs ++ c ∷ []) ≡ (is_new id cs && id_of c != id)
is_new-append id [] c = ground arith
is_new-append id (x ∷ xs) c = ground (arith, is_new-append id xs c)

publish-keeps :
    (id : String) (c : OrderedRegistrationCommand) (cs : Commands)
    → is_new id cs ≡ false
    → is_new id (publish c cs) ≡ false
unfolding publish
publish-keeps id c cs h = elim (Bool-cases (is_new (id_of c) cs)) [
  | inl new ↦ rw new (rw (is_new-append id cs c, h) refl)
  | inr old ↦ rw (old, h) refl
]

publish-queued :
    (c : OrderedRegistrationCommand) (cs : Commands) → is_new (id_of c) (publish c cs) ≡ false
unfolding publish
publish-queued c cs = elim (Bool-cases (is_new (id_of c) cs)) [
  | inl new ↦ rw new (rw (is_new-append (id_of c) cs c, new, beq_refl (id_of c)) refl)
  | inr old ↦ rw (old, old) refl
]

module _ (services : Services) where
  abbrev pub closing_command : Datetime → String → Datetime → OrderedRegistrationCommand
  closing_command now event_id closes_at =
      system_command now event_id (closing_id services event_id closes_at)
        Operation.scheduled_close_event

  abbrev pub publish_closing : Datetime → String → Option Datetime → Commands → Commands
  publish_closing now event_id none commands = commands
  publish_closing now event_id (some closes_at) commands =
      publish (closing_command now event_id closes_at) commands

  -- `now` is the reading of the clock that a command keeps as its moment of creation.
  unfoldable pub publish_closings : Datetime → List ScheduledLifecycleEvent → Commands → Commands
  publish_closings now [] commands = commands
  publish_closings now (e ∷ es) commands =
      publish_closings now es (publish_closing now e.event_id e.scheduled_close_at commands)

  -- The commands after it, and the number that it returns.
  unfoldable pub dispatch_closings :
      Datetime
      → Datetime
      → ℕ
      → Option (List ScheduledLifecycleEvent)
      → Rows
      → Commands
      → Commands × ℕ
  unfolding publish_closings
  dispatch_closings now closed_by limit due_events rows commands =
      let due = due_closings closed_by limit due_events rows in
      (publish_closings now due commands, length due)

  abbrev has_closing : Commands → String → Option Datetime → Bool
  has_closing commands event_id none = true
  has_closing commands event_id (some closes_at) =
      not (is_new (closing_id services event_id closes_at) commands)

  publish_closing-queued :
      (now : Datetime) (event_id : String) (o : Option Datetime) (cs : Commands)
      → has_closing (publish_closing now event_id o cs) event_id o ≡ true
  publish_closing-queued now event_id none cs = refl
  publish_closing-queued now event_id (some t) cs =
      ap not (publish-queued (closing_command now event_id t) cs)

  publish_closing-keeps :
      (now : Datetime) (event_id other : String) (o p : Option Datetime) (cs : Commands)
      → has_closing cs event_id o ≡ true
      → has_closing (publish_closing now other p cs) event_id o ≡ true
  publish_closing-keeps now event_id other none p cs h = refl
  publish_closing-keeps now event_id other (some t) none cs h = h
  publish_closing-keeps now event_id other (some t) (some u) cs h = ap not (
      publish-keeps (closing_id services event_id t) (closing_command now other u) cs
        (ground (arith, h)))

  publish_closings-keeps :
      (now : Datetime) (event_id : String) (o : Option Datetime) (es : List ScheduledLifecycleEvent)
      (cs : Commands)
      → has_closing cs event_id o ≡ true
      → has_closing (publish_closings now es cs) event_id o ≡ true
  unfolding publish_closings
  publish_closings-keeps now event_id o [] cs h = h
  publish_closings-keeps now event_id o (e ∷ es) cs h =
      publish_closings-keeps now event_id o es
        (publish_closing now e.event_id e.scheduled_close_at cs)
        (publish_closing-keeps now event_id e.event_id o e.scheduled_close_at cs h)

  abbrev has_closings : Commands → List ScheduledLifecycleEvent → Bool
  has_closings commands es = all_of (λ e. has_closing commands e.event_id e.scheduled_close_at) es

  publish_closings-queued :
      (now : Datetime) (es : List ScheduledLifecycleEvent) (cs : Commands)
      → has_closings (publish_closings now es cs) es ≡ true
  unfolding publish_closings
  publish_closings-queued now [] cs = refl
  publish_closings-queued now (e ∷ es) cs =
      let first = publish_closing now e.event_id e.scheduled_close_at cs in
      ground (
        arith,
        publish_closings-keeps now e.event_id e.scheduled_close_at es first
            (publish_closing-queued now e.event_id e.scheduled_close_at cs),
        publish_closings-queued now es first,
      )

  publish_closing-old :
      (now : Datetime) (event_id : String) (o : Option Datetime) (cs : Commands)
      → has_closing cs event_id o ≡ true
      → publish_closing now event_id o cs ≡ cs
  unfolding publish
  publish_closing-old now event_id none cs h = refl
  publish_closing-old now event_id (some t) cs h =
      elim (Bool-cases (is_new (closing_id services event_id t) cs)) [
        | inl new ↦ cc (rw new at h)
        | inr old ↦ rw old refl
      ]

  publish_closings-old :
      (now : Datetime) (es : List ScheduledLifecycleEvent) (cs : Commands)
      → has_closings cs es ≡ true
      → publish_closings now es cs ≡ cs
  unfolding publish_closings
  publish_closings-old now [] cs h = refl
  publish_closings-old now (e ∷ es) cs h =
      ap (publish_closings now es)
        (publish_closing-old now e.event_id e.scheduled_close_at cs (ground (arith, h)))
      ∙ publish_closings-old now es cs (ground (arith, h))

  pub dispatch_closings_again :
      (now later closed_by : Datetime) (limit : ℕ)
      (due_events : Option (List ScheduledLifecycleEvent)) (rows : Rows) (commands : Commands)
      → dispatch_closings later closed_by limit due_events rows
          (dispatch_closings now closed_by limit due_events rows commands).0
        ≡ dispatch_closings now closed_by limit due_events rows commands
  unfolding dispatch_closings
  dispatch_closings_again now later closed_by limit due_events rows commands =
      let due = due_closings closed_by limit due_events rows in
      ap (λ cs. (cs, length due))
        (publish_closings-old later due (publish_closings now due commands)
          (publish_closings-queued now due commands))
