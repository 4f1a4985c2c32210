-- ===== src/Application/GameClosings/Completed.antt =====
-- The commands of an automatic closing that is over.
use rolebot_hse.Base.{
  String, ◌≡◌, refl, ◌∙◌, true, Option, none, some, arith, mem, string_eq, option_eq, beq_refl,
}
use rolebot_hse.Errors.{ok}
use rolebot_hse.Dict.{get, put}
use rolebot_hse.Store.Events.State.{Rows, on_event_or_raise_found}
use rolebot_hse.Store.Events.Closing.{complete_scheduled_close_notifications}
use rolebot_hse.Domain.Enums.{Operation, operation_eq}
use rolebot_hse.Domain.Event.{Datetime, Event}
use rolebot_hse.Application.GameClosings.Actions.{Services, World, system_command, bind_ok}
use rolebot_hse.Application.GameClosings.{
  closing_id, expected_id, current_event, start, start_event, add_statistics, add_statistics_event,
  finalize, finalize_event, apply,
}
use rolebot_hse.Application.GameClosings.Run.{current_event_found}
use rolebot_hse.Application.GameClosings.Stale.{closing_operations, apply_by_operation}

-- An event whose scheduled closing is over.
pub record IsOver (e : Event) (id : String) (t over : Datetime) : Type 0 where
  pub own_id : e.event_id ≡ id
  pub at : e.scheduled_close_at ≡ some t
  pub completed : e.scheduled_close_completed_at ≡ some over

module _ (services : Services) where
  start_event_over :
      (now : Datetime) (op : String) (over : Datetime) (e : Event) (w : World)
      → e.scheduled_close_completed_at ≡ some over
      → start_event services now (e, op) w ≡ (ok "Запланированное закрытие уже выполнено", w)
  unfolding start_event
  start_event_over now op over e w c = ground (arith, c)

  add_statistics_event_over :
      (now : Datetime) (op id operation_id : String) (operation : Operation) (made over : Datetime)
      (e : Event) (w : World)
      → e.scheduled_close_completed_at ≡ some over
      → add_statistics_event services now (system_command made id operation_id operation) (e, op) w
        ≡ (ok "Запланированное закрытие уже выполнено", w)
  unfolding add_statistics_event
  add_statistics_event_over now op id operation_id operation made over e w c = ground (arith, c)

  finalize_event_over :
      (now : Datetime) (op : String) (over : Datetime) (e : Event) (w : World)
      → e.scheduled_close_completed_at ≡ some over
      → finalize_event services now (e, op) w ≡ (ok "Запланированное закрытие уже выполнено", w)
  unfolding finalize_event
  finalize_event_over now op over e w c = ground (arith, c)

  pub apply_over :
      (made now : Datetime) (id operation_id : String) (operation : Operation) (t over : Datetime)
      (e : Event) (w : World)
      → get id w.repository.rows ≡ some e
      → IsOver e id t over
      → mem operation closing_operations ≡ true
      → expected_id services (closing_id services id t) operation ≡ some operation_id
      → apply services now (system_command made id operation_id operation) w
        ≡ (ok "Запланированное закрытие уже выполнено", w)
  unfolding start add_statistics finalize
  apply_over made now id operation_id operation t over e w g s m x =
      let command = system_command made id operation_id operation in
      let op = closing_id services id t in
      let found =
        current_event_found services made id operation_id operation t e w g s.own_id s.at x in
      ground (
        arith,
        apply_by_operation services now command w,
        bind_ok (current_event services command) (start_event services now) w w (e, op) found
            ∙ start_event_over now op over e w s.completed,
        bind_ok (current_event services command) (add_statistics_event services now command) w w
              (e, op) found
            ∙ add_statistics_event_over now op id operation_id operation made over e w s.completed,
        bind_ok (current_event services command) (finalize_event services now) w w (e, op) found
            ∙ finalize_event_over now op over e w s.completed,
        m,
      )

  pub complete_scheduled_close-IsOver :
      (now : Datetime) (id : String) (t : Datetime) (e : Event) (rows : Rows)
      → get id rows ≡ some e
      → e.event_id ≡ id
      → e.scheduled_close_at ≡ some t
      → e.scheduled_close_operation_id ≡ some (closing_id services id t)
      → (e' : Event) × (over : Datetime) × IsOver e' id t over
        × (complete_scheduled_close_notifications id (closing_id services id t) now rows
            ≡ ok (put id e' rows))
  unfolding complete_scheduled_close_notifications
  complete_scheduled_close-IsOver now id t e rows g i a o =
      by_completed e.scheduled_close_completed_at refl
    where
      by_completed :
          (c : Option Datetime)
          → e.scheduled_close_completed_at ≡ c
          → (e' : Event) × (over : Datetime) × IsOver e' id t over
            × (complete_scheduled_close_notifications id (closing_id services id t) now rows
                ≡ ok (put id e' rows))
      by_completed none h = (
        record e { scheduled_close_completed_at = some now; updated_at = now },
        now,
        record { own_id = i; at = a; completed = refl },
        on_event_or_raise_found id _ rows e g ∙ rw (o, h, beq_refl (closing_id services id t)) refl,
      )
      by_completed (some over) h = (
        e,
        over,
        record { own_id = i; at = a; completed = h },
        on_event_or_raise_found id _ rows e g ∙ rw (o, h, beq_refl (closing_id services id t)) refl,
      )
