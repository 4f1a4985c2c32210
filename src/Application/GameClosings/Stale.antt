-- ===== src/Application/GameClosings/Stale.antt =====
-- A command that the current schedule of its game does not call for has no effect.
use rolebot_hse.Base.{
  String, ◌≡◌, ◌≢◌, ◌∙◌, refl, sym, Bool, Bool-cases, inl, inr, true, false, Option, none, some,
  List, [], ◌∷◌, arith, ◌==◌, string_eq, nat_eq, option_eq, option_beq_iff, mem,
}
use rolebot_hse.Base.Text.{◌&◌}
use rolebot_hse.Errors.{Result, err, Error}
use rolebot_hse.Dict.{get}
use rolebot_hse.Domain.Enums.{Operation, operation_eq}
use rolebot_hse.Domain.Event.{Datetime, Event}
use rolebot_hse.Domain.Command.{OrderedRegistrationCommand}
use rolebot_hse.Store.Events.State.{Rows, on_event_found, get-put_self}
use rolebot_hse.Store.Events.Closing.{reschedule, set_scheduled_close_at}
use rolebot_hse.Application.GameClosings.Actions.{
  Services, World, with_rows, system_command, bind_err,
}
use rolebot_hse.Application.GameClosings.{
  closing_id, stage_id, expected_id, check_event, current_event, start_event, add_statistics_event,
  finalize_event, start, add_statistics, finalize, apply,
}

abbrev pub closing_operations : List Operation
closing_operations =
    Operation.scheduled_close_event ∷ Operation.scheduled_close_statistics
    ∷ Operation.scheduled_close_finalize ∷ []

reschedule_found :
    (now : Datetime) (id : String) (t : Datetime) (e : Event) (rows : Rows)
    → get id rows ≡ some e
    → get id (set_scheduled_close_at now id (some t) rows).0 ≡ some (reschedule now (some t) e).0
unfolding set_scheduled_close_at
reschedule_found now id t e rows g =
    rw (on_event_found id (reschedule now (some t)) rows e g)
      (get-put_self id (reschedule now (some t) e).0 rows)

module _ (services : Services) where
  -- Whether the game is there, has a closing scheduled, and the id of the command is the one of its
  -- stage of that closing.
  abbrev pub is_called_for : OrderedRegistrationCommand → Option Event → Bool
  is_called_for command none = false
  is_called_for command (some event) = elim event.scheduled_close_at [
    | none ↦ false
    | some t ↦
        expected_id services (closing_id services event.event_id t) command.operation
        == some command.operation_id
  ]

  check_event_stale :
      (command : OrderedRegistrationCommand) (found : Option Event)
      → is_called_for command found ≡ false
      → check_event services command found ≡ err Error.domain_error
  check_event_stale command none h = refl
  check_event_stale command (some event) h = ground (arith, h)

  current_event_stale :
      (command : OrderedRegistrationCommand) (w : World)
      → is_called_for command (get command.event_id w.repository.rows) ≡ false
      → current_event services command w ≡ (err Error.domain_error, w)
  unfolding current_event
  current_event_stale command w h =
      rw (check_event_stale command (get command.event_id w.repository.rows) h)

  start_stale :
      (now : Datetime) (command : OrderedRegistrationCommand) (w : World)
      → is_called_for command (get command.event_id w.repository.rows) ≡ false
      → start services now command w ≡ (err Error.domain_error, w)
  unfolding start
  start_stale now command w h =
      bind_err (current_event services command) (start_event services now) w w Error.domain_error
        (current_event_stale command w h)

  add_statistics_stale :
      (now : Datetime) (command : OrderedRegistrationCommand) (w : World)
      → is_called_for command (get command.event_id w.repository.rows) ≡ false
      → add_statistics services now command w ≡ (err Error.domain_error, w)
  unfolding add_statistics
  add_statistics_stale now command w h =
      bind_err (current_event services command) (add_statistics_event services now command) w w
        Error.domain_error (current_event_stale command w h)

  finalize_stale :
      (now : Datetime) (command : OrderedRegistrationCommand) (w : World)
      → is_called_for command (get command.event_id w.repository.rows) ≡ false
      → finalize services now command w ≡ (err Error.domain_error, w)
  unfolding finalize
  finalize_stale now command w h =
      bind_err (current_event services command) (finalize_event services now) w w Error.domain_error
        (current_event_stale command w h)

  abbrev pub apply_as :
      Datetime → OrderedRegistrationCommand → Operation → World → Result String × World
  apply_as now command Operation.scheduled_close_event w = start services now command w
  apply_as now command Operation.scheduled_close_statistics w =
      add_statistics services now command w
  apply_as now command Operation.scheduled_close_finalize w = finalize services now command w
  apply_as now command _ w = (err Error.value_error, w)

  -- The three tests of `apply` are a case distinction.
  pub apply_by_operation :
      (now : Datetime) (command : OrderedRegistrationCommand) (w : World)
      → apply services now command w ≡ apply_as now command command.operation w
  unfolding apply
  apply_by_operation now command w = ground arith

  apply_stale :
      (now : Datetime) (command : OrderedRegistrationCommand) (w : World)
      → mem command.operation closing_operations ≡ true
      → is_called_for command (get command.event_id w.repository.rows) ≡ false
      → apply services now command w ≡ (err Error.domain_error, w)
  apply_stale now command w m h = ground (
    arith,
    apply_by_operation now command w,
    start_stale now command w h,
    add_statistics_stale now command w h,
    finalize_stale now command w h,
    m,
  )

  -- The ids of the three commands of a closing, written out.
  abbrev pub written_id : String → Datetime → Operation → Option String
  written_id id t Operation.scheduled_close_event =
      some (services.uuid5 ("larp-bot:scheduled-close:" & id & ":" & services.isoformat t))
  written_id id t Operation.scheduled_close_statistics = some (
      services.uuid5 (
        "larp-bot:"
        & services.uuid5 ("larp-bot:scheduled-close:" & id & ":" & services.isoformat t)
        & ":"
        & "statistics"))
  written_id id t Operation.scheduled_close_finalize = some (
      services.uuid5 (
        "larp-bot:"
        & services.uuid5 ("larp-bot:scheduled-close:" & id & ":" & services.isoformat t)
        & ":"
        & "finalize"))
  written_id id t _ = none

  pub expected_id-written_id :
      (id : String) (t : Datetime) (operation : Operation)
      → expected_id services (closing_id services id t) operation ≡ written_id id t operation
  unfolding expected_id stage_id closing_id
  expected_id-written_id id t Operation.scheduled_close_event = refl
  expected_id-written_id id t Operation.scheduled_close_statistics = refl
  expected_id-written_id id t Operation.scheduled_close_finalize = refl
  expected_id-written_id id t _ = refl

  -- A game with a closing scheduled, of which a command has the id that is written for its stage.
  abbrev pub IsCalled : OrderedRegistrationCommand → Option Event → Type 0
  IsCalled command found =
      (e : Event) × (t : Datetime) × (found ≡ some e)
      × (e.scheduled_close_at ≡ some t)
      × (written_id e.event_id t command.operation ≡ some command.operation_id)

  is_called_for-IsCalled :
      (command : OrderedRegistrationCommand) (found : Option Event)
      → is_called_for command found ≡ true
      → IsCalled command found
  is_called_for-IsCalled command none h = cc
  is_called_for-IsCalled command (some e) h = by_moment e.scheduled_close_at refl
    where
      by_moment : (o : Option Datetime) → e.scheduled_close_at ≡ o → IsCalled command (some e)
      by_moment none k = cc (rw k at h)
      by_moment (some t) k = (
        e,
        t,
        refl,
        k,
        sym (expected_id-written_id e.event_id t command.operation)
            ∙ (option_beq_iff ⦃e = string_eq⦄
                  (expected_id services (closing_id services e.event_id t) command.operation)
                  (some command.operation_id)).0
                (rw k at h),
      )

  -- A command of an automatic closing that has any effect, or any outcome other than to be refused
  -- with a `DomainError`: its game is there, has a closing scheduled, and the id of the command is
  -- that of its stage of this very closing, as the hash of the id and the moment gives it.
  pub apply-IsCalled :
      (now : Datetime) (command : OrderedRegistrationCommand) (w : World)
      → mem command.operation closing_operations ≡ true
      → apply services now command w ≢ (err Error.domain_error, w)
      → IsCalled command (get command.event_id w.repository.rows)
  apply-IsCalled now command w m h =
      elim (Bool-cases (is_called_for command (get command.event_id w.repository.rows))) [
        | inl called ↦ is_called_for-IsCalled command _ called
        | inr stale ↦ absurd (h (apply_stale now command w m stale))
      ]

  reschedule_lem :
      (now : Datetime) (t : Datetime) (e : Event)
      → e.scheduled_close_operation_id ≡ none
      → ((reschedule now (some t) e).0.scheduled_close_at ≡ some t)
        × ((reschedule now (some t) e).0.event_id ≡ e.event_id)
  unfolding reschedule
  reschedule_lem now t e o =
      ground (arith, o, option_beq_iff ⦃e = nat_eq⦄ e.scheduled_close_at (some t))

  not_called_for :
      (id : String) (t t' : Datetime) (now : Datetime) (e : Event)
      → e.event_id ≡ id
      → e.scheduled_close_at ≡ some t'
      → closing_id services id t' ≢ closing_id services id t
      → is_called_for
          (system_command now id (closing_id services id t) Operation.scheduled_close_event)
          (some e)
        ≡ false
  unfolding expected_id
  not_called_for id t t' now e i s n =
      rw (s, i)
        (ground (
          arith,
          n,
          option_beq_iff ⦃e = string_eq⦄ (some (closing_id services id t'))
              (some (closing_id services id t)),
        ))

  -- When a master moves the closing of a game to another moment before it began, and the ids of the
  -- two closings differ, the command that was queued for the old moment is refused and changes
  -- nothing.
  pub apply_rescheduled :
      (now later : Datetime) (id : String) (t t' : Datetime) (e : Event) (w : World)
      → get id w.repository.rows ≡ some e
      → e.event_id ≡ id
      → e.scheduled_close_operation_id ≡ none
      → closing_id services id t' ≢ closing_id services id t
      → apply services later
          (system_command later id (closing_id services id t) Operation.scheduled_close_event)
          (with_rows w (set_scheduled_close_at now id (some t') w.repository.rows).0)
        ≡ (
          err Error.domain_error,
          with_rows w (set_scheduled_close_at now id (some t') w.repository.rows).0,
        )
  apply_rescheduled now later id t t' e w g i o n =
      let rows' = (set_scheduled_close_at now id (some t') w.repository.rows).0 in
      let e' = (reschedule now (some t') e).0 in
      let facts = reschedule_lem now t' e o in
      let found : get id rows' ≡ some e' = reschedule_found now id t' e w.repository.rows g in
      apply_stale later
        (system_command later id (closing_id services id t) Operation.scheduled_close_event)
        (with_rows w rows') refl
        (rw found (not_called_for id t t' later e' (facts.1 ∙ i) facts.0 n))
