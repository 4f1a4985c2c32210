-- ===== src/Application/GameClosings.antt =====
-- `ScheduledGameClosingService` of larp_bot/application/game_closings.py: an automatic closing in
-- three commands, each of which may be delivered again. The proofs are in the children.
pub mod Actions
pub mod Stale
pub mod Run
pub mod Statistics
pub mod Completed
pub mod Begun
pub mod Finalized
pub mod Dispatcher
use rolebot_hse.Base.{
  ℕ, String, Bool, true, false, not, ◌&&◌, ◌||◌, Option, none, some, List, [], ◌∷◌, ◌++◌, ◌==◌,
  ◌!=◌, string_eq, option_eq, mem, is_some, is_none, if◌then◌else◌,
}
use rolebot_hse.Base.Text.{◌&◌, decimal}
use rolebot_hse.Errors.{Result, ok, err, Error}
use rolebot_hse.Dict.{get}
use rolebot_hse.Domain.Enums.{
  Platform, platform_eq, platform_value, Operation, operation_eq, EventStatus,
}
use rolebot_hse.Domain.Event.{Date, Datetime, Event}
use rolebot_hse.Domain.Command.{OrderedRegistrationCommand, CommandPayload, ReplyContext}
use rolebot_hse.Store.Events.State.{Rows, Identity, MemoryEventRepository, list_leaders}
use rolebot_hse.Store.Events.Closing.{
  start_scheduled_close, complete_scheduled_close_actions,
  mark_scheduled_close_notification_delivered, complete_scheduled_close_notifications,
}
use rolebot_hse.Store.Publisher.{Commands, publish}
use rolebot_hse.Application.GameClosings.Actions.{
  Sending, Services, World, Action, ◌>>=◌, pure, raise, get_event, with_rows, on_rows, or_raise,
  publish_command, system_command, recipient_of,
}

module _ (services : Services) where
  -- `ScheduledGameClosingDispatcher.operation_id`
  unfoldable pub closing_id : String → Datetime → String
  closing_id event_id scheduled_close_at =
      services.uuid5
        ("larp-bot:scheduled-close:" & event_id & ":" & services.isoformat scheduled_close_at)

  -- `ScheduledGameClosingDispatcher.stage_operation_id`
  unfoldable pub stage_id : String → String → String
  stage_id operation_id stage = services.uuid5 ("larp-bot:" & operation_id & ":" & stage)

  -- the dict of expected ids in `_event`
  unfoldable pub expected_id : String → Operation → Option String
  unfolding stage_id
  expected_id operation_id Operation.scheduled_close_event = some operation_id
  expected_id operation_id Operation.scheduled_close_statistics =
      some (stage_id operation_id "statistics")
  expected_id operation_id Operation.scheduled_close_finalize =
      some (stage_id operation_id "finalize")
  expected_id operation_id _ = none

  abbrev pub check_schedule :
      OrderedRegistrationCommand → Event → Option Datetime → Result (Event × String)
  check_schedule command event none = err Error.domain_error
  check_schedule command event (some t) =
      let operation_id = closing_id event.event_id t in
      if expected_id operation_id command.operation == some command.operation_id
      then ok (event, operation_id)
      else err Error.domain_error

  abbrev pub check_event : OrderedRegistrationCommand → Option Event → Result (Event × String)
  check_event command none = err Error.domain_error
  check_event command (some event) = check_schedule command event event.scheduled_close_at

  -- `ScheduledGameClosingService._event`
  unfoldable pub current_event : OrderedRegistrationCommand → Action (Event × String)
  current_event command w = (check_event command (get command.event_id w.repository.rows), w)

  unfoldable pub schedule_next : Datetime → String → String → Operation → Action (Unit {0})
  unfolding stage_id
  schedule_next now event_id operation_id operation = publish_command (
      system_command now event_id
        (stage_id operation_id
          (if operation == Operation.scheduled_close_statistics then "statistics" else "finalize"))
        operation)

  -- The end of `_start`: the next command.
  unfoldable pub start_next : Datetime → Event → String → Action String
  start_next now event operation_id =
      schedule_next now event.event_id operation_id (
        if is_some event.archived_at
        then Operation.scheduled_close_finalize
        else Operation.scheduled_close_statistics)
      >>= λ _. pure "Регистрация закрыта; добавление в статистику поставлено в очередь"

  -- The branch of `_start` that begins a closing, after the write.
  abbrev pub started : Datetime → String → Option Event → Action String
  started now operation_id none = pure "Игра удалена после начала запланированного закрытия"
  started now operation_id (some event) = start_next now event operation_id

  -- What follows the write of `start_scheduled_close`.
  abbrev pub after_write : Datetime → String → String → Bool → Action String
  after_write now event_id operation_id true = get_event event_id >>= started now operation_id
  after_write now event_id operation_id false = raise Error.runtime_error

  unfoldable pub begin_event : Datetime → Event → String → Action String
  begin_event now event operation_id =
      on_rows (start_scheduled_close event.event_id operation_id now)
      >>= after_write now event.event_id operation_id

  unfoldable pub start_event : Datetime → Event × String → Action String
  start_event now (event, operation_id) =
      if is_some event.scheduled_close_completed_at
      then pure "Запланированное закрытие уже выполнено"
      else if is_none event.scheduled_close_operation_id
      then (if is_some event.archived_at
          then pure "Игра уже архивирована вручную"
          else begin_event now event operation_id)
      else if event.scheduled_close_operation_id != some operation_id
      then raise Error.runtime_error
      else start_next now event operation_id

  unfoldable pub start : Datetime → OrderedRegistrationCommand → Action String
  start now command = current_event command >>= start_event now

  abbrev pub call_add_game : String → String → Action (Unit {0})
  call_add_game event_id operation_id w = elim (services.add_game event_id operation_id) [
    | err e ↦ (err e, w)
    | ok _ ↦ (ok tt, record w { added = w.added ++ (event_id, operation_id) ∷ [] })
  ]

  abbrev pub after_adding : Datetime → Event → String → Unit {0} → Action String
  after_adding now event operation_id _ =
      schedule_next now event.event_id operation_id Operation.scheduled_close_finalize >>= λ _.
      pure "Игра добавлена в статистику; архивация поставлена в очередь"

  unfoldable pub add_event : Datetime → String → Event → String → Action String
  add_event now command_id event operation_id =
      (if is_none event.archived_at then call_add_game event.event_id command_id else pure tt)
      >>= after_adding now event operation_id

  unfoldable pub add_statistics_event :
      Datetime → OrderedRegistrationCommand → Event × String → Action String
  add_statistics_event now command (event, operation_id) =
      if is_some event.scheduled_close_completed_at
      then pure "Запланированное закрытие уже выполнено"
      else if event.scheduled_close_operation_id != some operation_id
      then raise Error.runtime_error
      else add_event now command.operation_id event operation_id

  unfoldable pub add_statistics : Datetime → OrderedRegistrationCommand → Action String
  add_statistics now command = current_event command >>= add_statistics_event now command

  -- `await self.transport.send(...)` under its `except UnreachableRecipient`
  abbrev pub call_send : Identity → String → Sending → Action (Unit {0})
  call_send leader request_id Sending.delivered w =
      (ok tt, record w { sent = w.sent ++ (leader, request_id) ∷ [] })
  call_send leader request_id Sending.unreachable w = (ok tt, w)
  call_send leader request_id Sending.failed w = (err Error.runtime_error, w)

  -- The loop over the leaders.
  unfoldable pub notify_leaders :
      Datetime → String → String → List Identity → List String → Action (Unit {0})
  notify_leaders now event_id operation_id [] notified w = (ok tt, w)
  notify_leaders now event_id operation_id (leader ∷ leaders) notified w =
      let recipient = recipient_of leader in
      let request_id = operation_id & ":" & recipient in
      let skip = notify_leaders now event_id operation_id leaders notified w in
      let go =
        (call_send leader request_id (services.send leader request_id) >>= λ _.
        or_raise (mark_scheduled_close_notification_delivered now event_id operation_id recipient)
        >>= λ _. notify_leaders now event_id operation_id leaders (recipient ∷ notified))
          w in
      if mem recipient notified || leader.0 == Platform.system then skip else go

  abbrev pub call_refresh : Event → Action (Unit {0})
  call_refresh event w = (services.refresh_daily_pass_table event.game_date, w)

  -- The part of `_finalize` after the event was read again.
  abbrev pub report : Datetime → String → Option Event → Action String
  report now operation_id none = pure "Игра удалена после запланированного закрытия"
  report now operation_id (some event) = call_refresh event >>= λ _.
      (λ w.
        notify_leaders now event.event_id operation_id (list_leaders event.event_id w.repository)
          event.scheduled_close_notified_recipients w)
      >>= λ _.
          or_raise (complete_scheduled_close_notifications event.event_id operation_id now) >>= λ _.
          pure "Игра закрыта, добавлена в статистику и архивирована; мастера уведомлены"

  -- What follows the write of `complete_scheduled_close_actions`.
  abbrev pub after_actions : Datetime → String → String → Bool → Action String
  after_actions now event_id operation_id true = get_event event_id >>= report now operation_id
  after_actions now event_id operation_id false = raise Error.runtime_error

  unfoldable pub complete_event : Datetime → Event → String → Action String
  complete_event now event operation_id =
      on_rows (complete_scheduled_close_actions event.event_id operation_id now)
      >>= after_actions now event.event_id operation_id

  unfoldable pub finalize_event : Datetime → Event × String → Action String
  finalize_event now (event, operation_id) =
      if is_some event.scheduled_close_completed_at
      then pure "Запланированное закрытие уже выполнено"
      else if event.scheduled_close_operation_id != some operation_id
      then raise Error.runtime_error
      else complete_event now event operation_id

  unfoldable pub finalize : Datetime → OrderedRegistrationCommand → Action String
  finalize now command = current_event command >>= finalize_event now

  unfoldable pub apply : Datetime → OrderedRegistrationCommand → Action String
  apply now command =
      if command.operation == Operation.scheduled_close_event
      then start now command
      else if command.operation == Operation.scheduled_close_statistics
      then add_statistics now command
      else if command.operation == Operation.scheduled_close_finalize
      then finalize now command
      else raise Error.value_error
