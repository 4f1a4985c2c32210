-- ===== src/Tests/Games.antt =====
-- A closing of the ball, the queue of commands and the walk over the games.
use rolebot_hse.Base.{
  none, ◌≡◌, ◌≢◌, ◌∙◌, sym, refl, some, [], ◌∷◌, arith, length, string_eq, nat_eq, pair_eq,
}
use rolebot_hse.Base.Text.{decimal}
use rolebot_hse.Base.Order.{text_lt}
use rolebot_hse.Base.Sort.{sort_by, insert_by}
use rolebot_hse.Base.Reorder.{IsDistinct}
use rolebot_hse.Errors.{ok, err, Error}
use rolebot_hse.Dict.{get, put, values}
use rolebot_hse.Domain.Enums.{Operation}
use rolebot_hse.Domain.Event.{Event}
use rolebot_hse.Domain.Command.{OrderedRegistrationCommand}
use rolebot_hse.Store.Events.State.{Rows, list_leaders}
use rolebot_hse.Store.Events.Pages.{Cursor, cursor}
use rolebot_hse.Store.Events.Closing.{
  set_scheduled_close_at, complete_scheduled_close_notifications, complete_scheduled_close_actions,
}
use rolebot_hse.Store.Publisher.{Commands, publish, publish-IsDistinct}
use rolebot_hse.Application.GameClosings.Dispatcher.{dispatch_closings, dispatch_closings_again}
use rolebot_hse.Application.GameClosings.{
  add_statistics, finalize, stage_id, closing_id, expected_id, apply, start, current_event,
  finalize_event, complete_event, notify_leaders,
}
use rolebot_hse.Application.GameClosings.Statistics.{IsBegun, after_add, add_statistics_lem}
use rolebot_hse.Application.GameClosings.Finalized.{apply-finalize}
use rolebot_hse.Application.GameClosings.Actions.{
  Services, Sending, World, with_rows, system_command,
}
use rolebot_hse.Application.GameClosings.Stale.{
  IsCalled, apply_by_operation, apply-IsCalled, apply_rescheduled, written_id,
}
use rolebot_hse.Application.GameClosings.Run.{IsScheduled, begun, stage_command, start_lem}
use rolebot_hse.Application.UnarchivedEvents.{unarchived_events}
use rolebot_hse.Application.UnarchivedEvents.Walk.{unarchived, unarchived_events_complete}
use rolebot_hse.Tests.Distinct.{differ, are_distinct-IsDistinct}
use rolebot_hse.Tests.Data.{game}

-- The hash and the ISO form are the text itself.
abbrev services : Services
services = record {
  uuid5 = λ s. s;
  isoformat = decimal;
  add_game = λ _ _. ok tt;
  refresh_daily_pass_table = λ _. ok tt;
  send = λ _ _. Sending.delivered;
}

abbrev ball : Event
ball = game "ball" 1 5

abbrev games : Rows
games = ("ball", ball) ∷ ("siege", game "siege" 20 7) ∷ []

abbrev world : World
world = record {
  repository = record { rows = games; leaders = [] };
  commands = [];
  added = [];
  sent = [];
}

ball-IsScheduled : IsScheduled ball "ball" 900
ball-IsScheduled = record {
  own_id = refl;
  at = refl;
  not_completed = refl;
  not_begun = refl;
  not_archived = refl;
}

start_lem_example :
    start services 910
      (system_command 905 "ball" (closing_id services "ball" 900) Operation.scheduled_close_event)
      world
    ≡ (
      ok "Регистрация закрыта; добавление в статистику поставлено в очередь",
      record (with_rows world
          (put "ball" (begun (closing_id services "ball" 900) 910 ball) games)) {
            commands =
                publish
                  (stage_command services 910 "ball" 900 "statistics"
                    Operation.scheduled_close_statistics)
                  [];
          },
    )
start_lem_example = start_lem services 905 910 "ball" 900 ball world refl ball-IsScheduled

-- The same command in `apply`, which carries it out.
abbrev first_command : OrderedRegistrationCommand
first_command =
    system_command 905 "ball" (closing_id services "ball" 900) Operation.scheduled_close_event

started : apply services 910 first_command world ≢ (err Error.domain_error, world)
started h =
    cc (sym start_lem_example ∙ sym (apply_by_operation services 910 first_command world) ∙ h)

apply-IsCalled_example :
    IsCalled services first_command (get first_command.event_id world.repository.rows)
apply-IsCalled_example = apply-IsCalled services 910 first_command world refl started

closings_differ : closing_id services "ball" 950 ≢ closing_id services "ball" 900
unfolding closing_id decimal
closings_differ = differ (closing_id services "ball" 950) (closing_id services "ball" 900) refl

apply_rescheduled_example :
    apply services 910
      (system_command 910 "ball" (closing_id services "ball" 900) Operation.scheduled_close_event)
      (with_rows world (set_scheduled_close_at 800 "ball" (some 950) games).0)
    ≡ (
      err Error.domain_error,
      with_rows world (set_scheduled_close_at 800 "ball" (some 950) games).0,
    )
apply_rescheduled_example =
    apply_rescheduled services 800 910 "ball" 900 950 ball world refl refl refl closings_differ

abbrev queued : Commands
queued = system_command 905 "ball" "a" Operation.scheduled_close_event ∷ []

publish-IsDistinct_example :
    IsDistinct
      (λ (d : OrderedRegistrationCommand). d.operation_id)
      (publish (system_command 910 "ball" "b" Operation.scheduled_close_event) queued)
publish-IsDistinct_example =
    publish-IsDistinct (system_command 910 "ball" "b" Operation.scheduled_close_event) queued
      (tt, tt)

abbrev many : Rows
many =
    ("l", game "l" 1 12)
    ∷ ("a", game "a" 1 1)
    ∷ ("b", game "b" 1 2)
    ∷ ("c", game "c" 1 3)
    ∷ ("d", game "d" 1 4)
    ∷ ("e", game "e" 1 5)
    ∷ ("f", game "f" 1 6)
    ∷ ("g", game "g" 1 7)
    ∷ ("h", game "h" 1 8)
    ∷ ("i", game "i" 1 9)
    ∷ ("j", game "j" 1 10)
    ∷ ("k", game "k" 1 11)
    ∷ []

many-IsDistinct : IsDistinct {K = Cursor} cursor (values many)
many-IsDistinct = are_distinct-IsDistinct {K = Cursor} ⦃e = pair_eq⦄ cursor (values many) refl

many-length : length (unarchived many) ≡ 12
unfolding sort_by insert_by text_lt
many-length = refl

unarchived_events_complete_example : unarchived_events 13 0 many ≡ some (ok (unarchived many))
unarchived_events_complete_example =
    unarchived_events_complete 13 0 many many-IsDistinct (omega (arith, many-length))

-- The ball after the first command.
abbrev begun_ball : Event
begun_ball = begun (closing_id services "ball" 900) 910 ball

abbrev begun_world : World
begun_world = with_rows world (put "ball" begun_ball games)

begun_ball-IsBegun : IsBegun begun_ball "ball" 900 (closing_id services "ball" 900)
begun_ball-IsBegun = record {
  own_id = refl;
  at = refl;
  not_completed = refl;
  begun_as = refl;
  not_archived = refl;
}

add_statistics_lem_example :
    add_statistics services 930
      (system_command 920 "ball"
        (stage_id services (closing_id services "ball" 900) "statistics")
        Operation.scheduled_close_statistics)
      begun_world
    ≡ after_add services 930 "ball" 900 begun_world (ok tt)
add_statistics_lem_example =
    add_statistics_lem services 920 930 "ball" 900 begun_ball begun_world refl begun_ball-IsBegun

-- The last command of the closing of the ball.
abbrev last_command : OrderedRegistrationCommand
last_command =
    system_command 940 "ball" (stage_id services (closing_id services "ball" 900) "finalize")
      Operation.scheduled_close_finalize

abbrev closed_world : World
closed_world = (finalize services 950 last_command begun_world).1

last_run :
    finalize services 950 last_command begun_world
    ≡ (ok "Игра закрыта, добавлена в статистику и архивирована; мастера уведомлены", closed_world)
unfolding finalize current_event expected_id closing_id decimal finalize_event complete_event
    complete_scheduled_close_actions notify_leaders list_leaders sort_by
    complete_scheduled_close_notifications
last_run = refl

written :
    (written_id services "ball" 900 Operation.scheduled_close_finalize
      ≡ some (stage_id services (closing_id services "ball" 900) "finalize"))
    × (written_id services "ball" 900 Operation.scheduled_close_statistics
        ≡ some (stage_id services (closing_id services "ball" 900) "statistics"))
unfolding closing_id stage_id
written = (refl, refl)

apply-finalize_example :
    apply services 970
      (system_command 960 "ball"
        (stage_id services (closing_id services "ball" 900) "statistics")
        Operation.scheduled_close_statistics)
      closed_world
    ≡ (ok "Запланированное закрытие уже выполнено", closed_world)
apply-finalize_example =
    apply-finalize services 940 950 960 970 "ball"
      (stage_id services (closing_id services "ball" 900) "finalize")
      (stage_id services (closing_id services "ball" 900) "statistics")
      "Игра закрыта, добавлена в статистику и архивирована; мастера уведомлены"
      Operation.scheduled_close_statistics 900 begun_ball begun_world closed_world refl refl refl
      refl refl written.0 last_run refl written.1

dispatch_closings_again_example :
    dispatch_closings services 910 900 100 none games
      (dispatch_closings services 905 900 100 none games []).0
    ≡ dispatch_closings services 905 900 100 none games []
dispatch_closings_again_example = dispatch_closings_again services 905 910 900 100 none games []
