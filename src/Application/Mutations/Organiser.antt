-- ===== src/Application/Mutations/Organiser.antt =====
-- The commands of `apply` that change a game: its status, its details, its places and the archive.
use rolebot_hse.Base.{
  ℕ, String, Bool, true, false, not, ◌&&◌, ◌||◌, Option, none, some, List, [], ◌∷◌, is_some,
  is_none, take, drop, ltb, leb, ◌-◌, nat_eq, string_eq, option_eq, ◌==◌, ◌!=◌, if◌then◌else◌,
}
use rolebot_hse.Base.Text.{◌&◌, decimal}
use rolebot_hse.Errors.{ok}
use rolebot_hse.Domain.Enums.{Platform, platform_eq, Operation, EventStatus, status_eq}
use rolebot_hse.Domain.Event.{Date, Datetime, Event, RegistrationQuestion, AnswerOption}
use rolebot_hse.Domain.Registration.{Registration}
use rolebot_hse.Domain.Command.{OrderedRegistrationCommand, CommandPayload}
use rolebot_hse.Domain.Queues.{active_queue, keys_of}
use rolebot_hse.Store.Events.Schedules.{set_status, open_scheduled_confirmation, open_confirmation}
use rolebot_hse.Store.Events.Closing.{unarchive}
use rolebot_hse.Store.Events.Delivery.{append_confirmed_notification, set_participant_removal}
use rolebot_hse.Store.Events.Details.{set_details, set_registration_question, set_player_amount}
use rolebot_hse.Store.Registrations.State.{list_for_event}
use rolebot_hse.Application.Effects.{Effect, ◌>>=◌, ◌>>◌, pure, when}
use rolebot_hse.Application.Support.{MutationResult, done, done_if}
use rolebot_hse.Application.Mutations.{
  World, Services, on_events, try_events, change_events, refuse, fail_assert,
}
use rolebot_hse.Application.Mutations.Catalog.{
  refresh, ensure_migrated, archive_event, delete_event,
}
use rolebot_hse.Application.Mutations.Access.{require_admin}
use rolebot_hse.Application.Mutations.Passes.{refresh_daily_pass_table}

-- The answers of a question with their places, which a change of the texts must keep.
unfoldable pub same_places : List AnswerOption → List AnswerOption → Bool
same_places [] [] = true
same_places (o ∷ os) (p ∷ ps) =
    o.option_id == p.option_id && (o.player_amount == p.player_amount && same_places os ps)
same_places _ _ = false

-- The players whom a larger number of places moves up.
unfoldable pub moved_up : ℕ → ℕ → List Registration → List String
moved_up old new rows =
    if ltb old new then keys_of (take (new - old) (drop old (active_queue rows none))) else []

module _ {S : Type 0} (services : Services S) (now : Datetime) where
  abbrev pub Mutation : Type 0
  Mutation = Event → OrderedRegistrationCommand → Effect (World S) MutationResult

  -- `ScheduledConfirmationOpeningDispatcher.operation_id`
  unfoldable pub opening_id : String → Datetime → String
  opening_id event_id opens_at =
      services.uuid5
        ("larp-bot:scheduled-confirmation:" & event_id & ":" & services.isoformat opens_at)

  abbrev pub rescheduled : MutationResult
  rescheduled = done_if "Расписание открытия подтверждения было изменено" false

  abbrev pub opened : Bool → MutationResult
  opened false = rescheduled
  opened true = done_if "Установлен Статус «Подтверждение» по расписанию" true

  abbrev pub open_on_schedule :
      Event → String → Datetime → Datetime → CommandPayload → Effect (World S) MutationResult
  open_on_schedule event operation_id opens_at deadline (CommandPayload.confirmation_deadline d) =
      if operation_id != opening_id event.event_id opens_at || d != deadline
      then pure rescheduled
      else on_events (open_scheduled_confirmation now event.event_id opens_at d) >>= λ changed.
          pure (opened changed)
  open_on_schedule event operation_id opens_at deadline _ = fail_assert

  abbrev pub already_opened : MutationResult
  already_opened = done_if "Запланированное открытие подтверждения уже отменено или выполнено" false

  abbrev pub open_if_due :
      Event
      → OrderedRegistrationCommand
      → Option Datetime
      → Option Datetime
      → Effect (World S) MutationResult
  open_if_due event c (some opens_at) (some deadline) =
      if is_some event.archived_at || event.status != EventStatus.created
      then pure already_opened
      else open_on_schedule event c.operation_id opens_at deadline c.payload
  open_if_due event c _ _ = pure already_opened

  unfoldable pub scheduled_open_confirmation : Mutation
  unfolding opening_id
  scheduled_open_confirmation event c =
      if c.platform != Platform.system
      then refuse
      else open_if_due event c event.confirmation_open_at event.confirmation_deadline

  unfoldable pub unarchive_event : Mutation
  unfolding require_admin refresh_daily_pass_table
  unarchive_event event c =
      require_admin services c
      >> (if is_none event.archived_at
          then refresh_daily_pass_table services event.game_date
            >> pure (done "Игра уже разархивирована")
          else (try_events (unarchive services.fields_ok event.event_id now) >>= λ (_ : Bool).
              refresh_daily_pass_table services event.game_date
              >> pure (done "Игра разархивирована; регистрация остаётся закрытой")))

  unfoldable pub delete_archived : Mutation
  unfolding require_admin delete_event
  delete_archived event c =
      require_admin services c
      >> (if is_none event.archived_at
          then refuse
          else delete_event services now event >> pure (done "Игра, записи и XLSX-таблицы удалены"))

  abbrev pub open_with : Event → CommandPayload → Effect (World S) MutationResult
  open_with event (CommandPayload.confirmation_deadline deadline) =
      on_events (open_confirmation now event.event_id deadline) >>= λ (_ : Bool).
      pure (
        done_if "Установлен Статус «Подтверждение»" (event.status != EventStatus.confirmation_open))
  open_with event _ = fail_assert

  abbrev pub send_reminder : Event → Effect (World S) MutationResult
  send_reminder event =
      if event.status != EventStatus.confirmation_open
      then refuse
      else if is_none event.confirmation_deadline
      then refuse
      else pure (done "Напоминание о подтверждении отправлено")

  abbrev pub notify_confirmed : Event → String → CommandPayload → Effect (World S) MutationResult
  notify_confirmed event operation_id (CommandPayload.notification text) =
      on_events (append_confirmed_notification now event.event_id text operation_id)
      >>= λ (_ : Bool). pure (done "Уведомление подтвердившим участие отправлено")
  notify_confirmed event operation_id _ = fail_assert

  abbrev pub notify_all : CommandPayload → Effect (World S) MutationResult
  notify_all (CommandPayload.notification text) = pure (done "Уведомление всем игрокам отправлено")
  notify_all _ = fail_assert

  -- The scheduled closing of a game is after its day.
  abbrev pub closes_by : Date → Option Datetime → Bool
  closes_by game_date none = false
  closes_by game_date (some t) = leb (services.moscow_date t) game_date

  abbrev pub update_details : Event → CommandPayload → Effect (World S) MutationResult
  update_details event (CommandPayload.event_details name game_date) =
      if closes_by game_date event.scheduled_close_at
      then refuse
      else on_events (set_details now event.event_id name game_date) >>= λ (_ : Bool).
          refresh_daily_pass_table services event.game_date
          >> when (not (event.game_date == some game_date))
              (refresh_daily_pass_table services (some game_date))
          >> pure (
              done (
                "Название и дата игры изменены: " & services.event_reference name (some game_date)))
  update_details event _ = fail_assert

  abbrev pub replace_question :
      Event → RegistrationQuestion → Option RegistrationQuestion → Effect (World S) MutationResult
  replace_question event question none = refuse
  replace_question event question (some current) =
      if not (same_places current.options question.options)
      then refuse
      else change_events (set_registration_question now event.event_id question)
        >> refresh services now (record event { registration_question = some question })
        >> pure (done "Дополнительный вопрос и названия ответов обновлены")

  abbrev pub update_question : Event → CommandPayload → Effect (World S) MutationResult
  update_question event (CommandPayload.question question) =
      replace_question event question event.registration_question
  update_question event _ = fail_assert

  -- Who moves up is saved once for each operation.
  abbrev pub save_moved_up : Event → String → ℕ → Effect (World S) (Unit {0})
  save_moved_up event operation_id amount w =
      if event.last_participant_removal_operation_id == some operation_id
      then (ok tt, w)
      else change_events
          (set_participant_removal now event.event_id operation_id (
            moved_up event.player_amount amount
              (list_for_event event.event_id w.registrations.rows)))
          w

  abbrev pub change_amount : Event → String → CommandPayload → Effect (World S) MutationResult
  change_amount event operation_id (CommandPayload.player_amount amount) =
      ensure_migrated services now event >>= λ (event' : Event).
      save_moved_up event' operation_id amount
      >> on_events (set_player_amount now event'.event_id amount)
      >> refresh services now (record event' { player_amount = amount })
      >> pure (done ("Количество игроков изменено: " & decimal amount))
  change_amount event operation_id _ = fail_assert

  unfoldable pub update_player_amount :
      Event → OrderedRegistrationCommand → Effect (World S) MutationResult
  unfolding moved_up ensure_migrated refresh decimal
  update_player_amount event c =
      if is_some event.registration_question
      then refuse
      else change_amount event c.operation_id c.payload

  abbrev pub change_status : Event → EventStatus → String → Effect (World S) MutationResult
  change_status event status message =
      on_events (set_status now event.event_id status) >>= λ changed. pure (done_if message changed)

  unfoldable pub archive_game : Event → Effect (World S) MutationResult
  unfolding archive_event refresh_daily_pass_table
  archive_game event = archive_event services now event >>= λ (_ : Bool).
      refresh_daily_pass_table services event.game_date
      >> pure (done "Игра архивирована; таблицы и записи сохранены")

  -- The administrative commands, once the author was found to lead the game.
  unfoldable pub administer : Operation → Mutation
  unfolding update_player_amount archive_game same_places
  administer Operation.open_confirmation event c = open_with event c.payload
  administer Operation.send_confirmation_reminder event c = send_reminder event
  administer Operation.send_confirmed_notification event c =
      notify_confirmed event c.operation_id c.payload
  administer Operation.send_all_players_notification event c = notify_all c.payload
  administer Operation.update_event_details event c = update_details event c.payload
  administer Operation.update_question event c = update_question event c.payload
  administer Operation.update_player_amount event c = update_player_amount event c
  administer Operation.open_registration event c =
      change_status event EventStatus.created "Установлен Статус «Регистрация»"
  administer Operation.close_event event c =
      change_status event EventStatus.closed "Установлен Статус «Закрытие регистрации»"
  administer Operation.archive_event event c = archive_game event
  administer _ event c = fail_assert
