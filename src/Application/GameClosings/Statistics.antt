-- ===== src/Application/GameClosings/Statistics.antt =====
-- The second command of an automatic closing.
use rolebot_hse.Base.{
  String, ◌≡◌, ◌∙◌, refl, none, some, [], ◌∷◌, ◌++◌, string_eq, option_eq, beq_refl,
}
use rolebot_hse.Errors.{Result, ok, err}
use rolebot_hse.Dict.{get}
use rolebot_hse.Domain.Enums.{Operation}
use rolebot_hse.Domain.Event.{Datetime, Event}
use rolebot_hse.Store.Publisher.{publish}
use rolebot_hse.Application.GameClosings.Actions.{Services, World, system_command, bind_ok}
use rolebot_hse.Application.GameClosings.{
  closing_id, stage_id, expected_id, current_event, schedule_next, add_statistics,
  add_statistics_event, add_event, call_add_game,
}
use rolebot_hse.Application.GameClosings.Run.{current_event_found, stage_command}

-- An event whose scheduled closing has begun and is not over.
pub record IsBegun (e : Event) (id : String) (t : Datetime) (operation_id : String) : Type 0 where
  pub own_id : e.event_id ≡ id
  pub at : e.scheduled_close_at ≡ some t
  pub not_completed : e.scheduled_close_completed_at ≡ none
  pub begun_as : e.scheduled_close_operation_id ≡ some operation_id
  pub not_archived : e.archived_at ≡ none

module _ (services : Services) where
  abbrev pub after_add :
      Datetime → String → Datetime → World → Result (Unit {0}) → Result String × World
  after_add now id t w (err e) = (err e, w)
  after_add now id t w (ok _) = (
    ok "Игра добавлена в статистику; архивация поставлена в очередь",
    record w {
      added = w.added ++ (id, stage_id services (closing_id services id t) "statistics") ∷ [];
      commands =
          publish (stage_command services now id t "finalize" Operation.scheduled_close_finalize)
            w.commands;
    },
  )

  add_event_lem :
      (now : Datetime) (id : String) (t : Datetime) (e : Event) (w : World) (r : Result (Unit {0}))
      → e.event_id ≡ id
      → e.archived_at ≡ none
      → services.add_game id (stage_id services (closing_id services id t) "statistics") ≡ r
      → add_event services now
          (stage_id services (closing_id services id t) "statistics")
          e
          (closing_id services id t)
          w
        ≡ after_add now id t w r
  unfolding add_event schedule_next
  add_event_lem now id t e w (ok _) i a x = rw (i, a) (rw (call_add_game, x))
  add_event_lem now id t e w (err _) i a x = rw (i, a) (rw (call_add_game, x))

  -- A closing that has begun: its second command adds the game to the statistics under its own id
  -- and then queues the last command; where the statistics fail, the failure is returned, nothing
  -- is recorded and nothing queued, so that the command can be delivered again.
  pub add_statistics_lem :
      (made now : Datetime) (id : String) (t : Datetime) (e : Event) (w : World)
      → get id w.repository.rows ≡ some e
      → IsBegun e id t (closing_id services id t)
      → add_statistics services now
          (system_command made id
            (stage_id services (closing_id services id t) "statistics")
            Operation.scheduled_close_statistics)
          w
        ≡ after_add now id t w
            (services.add_game id (stage_id services (closing_id services id t) "statistics"))
  unfolding add_statistics add_statistics_event expected_id add_event
  add_statistics_lem made now id t e w g s =
      let op = closing_id services id t in
      let command =
        system_command made id (stage_id services op "statistics")
          Operation.scheduled_close_statistics in
      bind_ok (current_event services command) (add_statistics_event services now command) w w
        (e, op)
        (current_event_found services made id (stage_id services op "statistics")
          Operation.scheduled_close_statistics t e w g s.own_id s.at refl)
      ∙ rw (s.not_completed, s.begun_as)
          (rw (beq_refl op) (add_event_lem now id t e w _ s.own_id s.not_archived refl))
