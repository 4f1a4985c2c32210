-- ===== src/Application/GameClosings/Run.antt =====
-- The three commands of an automatic closing, one after the other.
use rolebot_hse.Base.{
  String, ◌≡◌, ◌∙◌, refl, ap, true, Option, none, some, arith, string_eq, option_eq, option_beq_iff,
}
use rolebot_hse.Errors.{Result, ok}
use rolebot_hse.Dict.{get, put}
use rolebot_hse.Domain.Enums.{Operation, operation_eq, EventStatus}
use rolebot_hse.Domain.Event.{Datetime, Event}
use rolebot_hse.Domain.Command.{OrderedRegistrationCommand}
use rolebot_hse.Store.Events.State.{on_event_found, get-put_self}
use rolebot_hse.Store.Events.Closing.{begin_close, start_scheduled_close}
use rolebot_hse.Store.Publisher.{publish}
use rolebot_hse.Application.GameClosings.Actions.{
  Services, World, with_rows, system_command, bind_ok, ◌>>=◌, on_rows, get_event,
}
use rolebot_hse.Application.GameClosings.{
  closing_id, stage_id, expected_id, check_event, current_event, after_write, begin_event,
  start_event, start, schedule_next, start_next, started,
}

-- An event with a closing scheduled at a moment that has not begun.
pub record IsScheduled (e : Event) (id : String) (t : Datetime) : Type 0 where
  pub own_id : e.event_id ≡ id
  pub at : e.scheduled_close_at ≡ some t
  pub not_completed : e.scheduled_close_completed_at ≡ none
  pub not_begun : e.scheduled_close_operation_id ≡ none
  pub not_archived : e.archived_at ≡ none

-- The same event after the first command.
abbrev pub begun : String → Datetime → Event → Event
begun operation_id now e = record e {
  status = EventStatus.closed;
  scheduled_close_operation_id = some operation_id;
  updated_at = now;
}

module _ (services : Services) where
  abbrev pub stage_command :
      Datetime → String → Datetime → String → Operation → OrderedRegistrationCommand
  stage_command now id t stage operation =
      system_command now id (stage_id services (closing_id services id t) stage) operation

  start_write :
      (now : Datetime) (id op : String) (t : Datetime) (e : Event) (w : World)
      → get id w.repository.rows ≡ some e
      → IsScheduled e id t
      → on_rows (start_scheduled_close id op now) w
        ≡ (ok true, with_rows w (put id (begun op now e) w.repository.rows))
  unfolding start_scheduled_close
  start_write now id op t e w g s =
      rw (on_event_found id (begin_close op now) w.repository.rows e g)
        (rw (s.not_begun, s.not_archived))

  -- The check of a command that the schedule calls for.
  check_event_found :
      (made : Datetime) (id operation_id : String) (operation : Operation) (t : Datetime)
      (e : Event)
      → e.event_id ≡ id
      → e.scheduled_close_at ≡ some t
      → expected_id services (closing_id services id t) operation ≡ some operation_id
      → check_event services (system_command made id operation_id operation) (some e)
        ≡ ok (e, closing_id services id t)
  check_event_found made id operation_id operation t e i a x = rw a (
      ground (
        arith,
        i,
        x,
        option_beq_iff ⦃e = string_eq⦄ (expected_id services (closing_id services id t) operation)
            (some operation_id),
      ))

  pub current_event_found :
      (made : Datetime) (id operation_id : String) (operation : Operation) (t : Datetime)
      (e : Event) (w : World)
      → get id w.repository.rows ≡ some e
      → e.event_id ≡ id
      → e.scheduled_close_at ≡ some t
      → expected_id services (closing_id services id t) operation ≡ some operation_id
      → current_event services (system_command made id operation_id operation) w
        ≡ (ok (e, closing_id services id t), w)
  unfolding current_event
  current_event_found made id operation_id operation t e w g i a x =
      ap (λ (r : Result (Event × String)). (r, w))
        (ap (check_event services (system_command made id operation_id operation)) g
          ∙ check_event_found made id operation_id operation t e i a x)

  begin_event_lem :
      (now : Datetime) (id op : String) (t : Datetime) (e : Event) (w : World)
      → get id w.repository.rows ≡ some e
      → IsScheduled e id t
      → begin_event services now e op w
        ≡ start_next services now
            (begun op now e)
            op
            (with_rows w (put id (begun op now e) w.repository.rows))
  unfolding begin_event
  begin_event_lem now id op t e w g s =
      let w' = with_rows w (put id (begun op now e) w.repository.rows) in
      ap
        (λ (x : String).
          (on_rows (start_scheduled_close x op now) >>= after_write services now x op) w)
        s.own_id
      ∙ bind_ok (on_rows (start_scheduled_close id op now)) (after_write services now id op) w w'
          true (start_write now id op t e w g s)
      ∙ bind_ok (get_event id) (started services now op) w' w' (some (begun op now e)) (
          ap (λ (o : Option Event). (ok o, w'))
            (get-put_self id (begun op now e) w.repository.rows))

  start_event_lem :
      (now : Datetime) (id op : String) (t : Datetime) (e : Event) (w : World)
      → IsScheduled e id t
      → start_event services now (e, op) w ≡ begin_event services now e op w
  unfolding start_event
  start_event_lem now id op t e w s = ground (arith, s.not_completed, s.not_begun, s.not_archived)

  -- A game that is not archived goes on with its statistics.
  start_next_lem :
      (now : Datetime) (id op : String) (e : Event) (w : World)
      → e.event_id ≡ id
      → e.archived_at ≡ none
      → start_next services now e op w ≡ (
        ok "Регистрация закрыта; добавление в статистику поставлено в очередь",
        record w {
          commands =
              publish
                (system_command now id
                  (stage_id services op "statistics")
                  Operation.scheduled_close_statistics)
                w.commands;
        },
      )
  unfolding start_next schedule_next
  start_next_lem now id op e w i a = rw (i, a) refl

  -- A scheduled closing that has not begun: its first command closes the registration, marks the
  -- closing as begun and queues the command for the statistics.
  pub start_lem :
      (made now : Datetime) (id : String) (t : Datetime) (e : Event) (w : World)
      → get id w.repository.rows ≡ some e
      → IsScheduled e id t
      → start services now
          (system_command made id (closing_id services id t) Operation.scheduled_close_event)
          w
        ≡ (
          ok "Регистрация закрыта; добавление в статистику поставлено в очередь",
          record (with_rows w (put id (begun (closing_id services id t) now e) w.repository.rows)) {
            commands =
                publish
                  (stage_command now id t "statistics" Operation.scheduled_close_statistics)
                  w.commands;
          },
        )
  unfolding start expected_id
  start_lem made now id t e w g s =
      let op = closing_id services id t in
      bind_ok (current_event services (system_command made id op Operation.scheduled_close_event))
        (start_event services now) w w (e, op)
        (current_event_found made id op Operation.scheduled_close_event t e w g s.own_id s.at refl)
      ∙ start_event_lem now id op t e w s
      ∙ begin_event_lem now id op t e w g s
      ∙ start_next_lem now id op (begun op now e)
          (with_rows w (put id (begun op now e) w.repository.rows)) s.own_id s.not_archived
