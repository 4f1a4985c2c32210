-- ===== src/Application/Mutations/Player.antt =====
-- The commands of `apply` on the row of a player: wishes, answers, cancellation and removal.
use rolebot_hse.Base.{
  ℕ, String, Bool, false, ◌&&◌, Option, none, some, List, [], ◌∷◌, is_some, leb, string_eq,
  option_eq, ◌==◌, ◌!=◌, if◌then◌else◌,
}
use rolebot_hse.Base.Text.{◌&◌, decimal}
use rolebot_hse.Errors.{Error}
use rolebot_hse.Domain.Enums.{AttendanceStatus, attendance_eq, EventStatus, status_eq}
use rolebot_hse.Domain.Event.{Datetime, Event, RegistrationQuestion, AnswerOption, question_option}
use rolebot_hse.Domain.Registration.{Registration}
use rolebot_hse.Domain.Command.{OrderedRegistrationCommand, CommandPayload}
use rolebot_hse.Domain.Queues.{queue_position}
use rolebot_hse.Store.Events.Delivery.{set_participant_removal}
use rolebot_hse.Store.Registrations.State.{get_registration, remove}
use rolebot_hse.Store.Registrations.Updates.{
  update_character_wish, update_co_player_wish, update_answer, cancel,
}
use rolebot_hse.Store.Registrations.Linked.{
  update_linked_character_wish, update_linked_co_player_wish, cancel_linked,
}
use rolebot_hse.Application.Effects.{Effect, ◌>>=◌, ◌>>◌, pure, raise, when}
use rolebot_hse.Application.Support.{MutationResult, done, done_if, cancellation_snapshot_entry}
use rolebot_hse.Application.Mutations.{
  World, Services, on_registrations, try_registrations, change_events, refuse, fail_assert,
}
use rolebot_hse.Application.Mutations.Catalog.{refresh, refresh_with_rows}
use rolebot_hse.Application.Mutations.Passes.{refresh_pass_table}
use rolebot_hse.Application.Mutations.Promotions.{record_promotions}
use rolebot_hse.Application.Mutations.Rosters.{find_row}

-- A player as a command finds them: the key of the command, the view of the rows, the keys of all
-- of them, and whether the player has profiles on both platforms.
pub record Actor : Type 0 where
  pub key : String
  pub registration : Registration
  pub actor_keys : List String
  pub linked : Bool

abbrev pub is_cancelled : Registration → Bool
is_cancelled r = r.attendance_status == AttendanceStatus.cancelled

module _ {S : Type 0} (services : Services S) (now : Datetime) where
  -- The snapshot of a command that takes a row away, saved once for each operation.
  abbrev pub save_removal : Event → String → List String → Effect (World S) (Unit {0})
  save_removal event operation_id keys =
      when (event.last_participant_removal_operation_id != some operation_id)
        (change_events (set_participant_removal now event.event_id operation_id keys))

  -- The workbooks after a change of the roster.
  abbrev pub show : Event → Effect (World S) (Event × List Registration)
  show event = refresh_with_rows services now event >>= λ (event', rows).
      refresh_pass_table services event' (some rows) >> pure (event', rows)

  abbrev pub remove_row : Event → String → Option Registration → Effect (World S) (Unit {0})
  remove_row event key none = pure tt
  remove_row event key (some _) =
      on_registrations (remove event.event_id key) >>= λ (_ : Bool). pure tt

  abbrev pub remove_found :
      Event
      → OrderedRegistrationCommand
      → String
      → Option Registration
      → Effect (World S) MutationResult
  remove_found event c key row =
      save_removal event c.operation_id (if is_some row then key ∷ [] else [])
      >> record_promotions now event c row
      >>= λ (event' : Event).
          remove_row event' key row
          >> show event'
          >> pure (done (if is_some row then "Игрок удалён" else "Игрок уже удалён"))

  abbrev pub remove_unless_cancelled :
      Event
      → OrderedRegistrationCommand
      → String
      → Option Registration
      → Effect (World S) MutationResult
  remove_unless_cancelled event c key none = remove_found event c key none
  remove_unless_cancelled event c key (some row) =
      if is_cancelled row then refuse else remove_found event c key (some row)

  unfoldable pub remove_participant :
      Event → OrderedRegistrationCommand → String → Effect (World S) MutationResult
  unfolding record_promotions
  remove_participant event c key w =
      remove_unless_cancelled event c key (get_registration event.event_id key w.registrations.rows)
        w

  abbrev pub character_wish_with :
      Event → String → Actor → CommandPayload → Effect (World S) MutationResult
  character_wish_with event operation_id a (CommandPayload.character_wish wish replaced) =
      (if a.linked
        then on_registrations
            (update_linked_character_wish now event.event_id operation_id a.actor_keys wish)
        else try_registrations (update_character_wish now event.event_id operation_id a.key wish))
      >> refresh services now event
      >> pure (done "Пожелания по персонажу обновлены")
  character_wish_with event operation_id a _ = fail_assert

  unfoldable pub change_character_wish :
      Event → OrderedRegistrationCommand → Actor → Effect (World S) MutationResult
  change_character_wish event c a =
      if is_cancelled a.registration
      then refuse
      else if a.registration.attendance_status == AttendanceStatus.waiting
          && a.registration.character_wish == ""
      then refuse
      else character_wish_with event c.operation_id a c.payload

  abbrev pub co_player_wish_with :
      Event → String → Actor → CommandPayload → Effect (World S) MutationResult
  co_player_wish_with event operation_id a (CommandPayload.co_player_wish wish) =
      (if a.linked
        then on_registrations
            (update_linked_co_player_wish now event.event_id operation_id a.actor_keys wish)
        else try_registrations (update_co_player_wish now event.event_id operation_id a.key wish))
      >> refresh services now event
      >> pure (done "Пожелания по соигрокам обновлены")
  co_player_wish_with event operation_id a _ = fail_assert

  unfoldable pub change_co_player_wish :
      Event → OrderedRegistrationCommand → Actor → Effect (World S) MutationResult
  change_co_player_wish event c a =
      if is_cancelled a.registration
      then refuse
      else co_player_wish_with event c.operation_id a c.payload

  abbrev pub answer_text : AnswerOption → Option ℕ → Effect (World S) MutationResult
  answer_text option none = raise Error.runtime_error
  answer_text option (some position) = pure (
      done (
        "Ответ изменён: "
        & option.name
        & ". Вы в конце очереди этого ответа: "
        & (if leb position option.player_amount then "основной состав" else "запас")
        & ", место "
        & decimal position
        & "."))

  abbrev pub answer_position : Event → List Registration → Option Registration → Option ℕ
  answer_position event rows none = none
  answer_position event rows (some row) = queue_position event rows row

  abbrev pub answer_with :
      Event
      → OrderedRegistrationCommand
      → Actor
      → Option AnswerOption
      → Effect (World S) MutationResult
  answer_with event c a none = refuse
  answer_with event c a (some option) =
      if event.status == EventStatus.closed
      then refuse
      else if is_cancelled a.registration
      then refuse
      else if a.registration.answer_id == some option.option_id
          && a.registration.last_operation_id != c.operation_id
      then pure (done_if ("Ваш ответ уже выбран: " & option.name) false)
      else (record_promotions now event c (some a.registration) >>= λ (event' : Event).
          on_registrations
            (update_answer now now now event'.event_id c.operation_id a.actor_keys option.option_id)
          >> refresh_with_rows services now event'
          >>= λ (event'', rows).
              answer_text option
                (answer_position event'' rows (find_row a.registration.participant_key rows)))

  abbrev pub option_of : Option RegistrationQuestion → String → Option AnswerOption
  option_of none answer_id = none
  option_of (some q) answer_id = question_option q (some answer_id)

  abbrev pub answer_payload :
      Event → OrderedRegistrationCommand → Actor → CommandPayload → Effect (World S) MutationResult
  answer_payload event c a (CommandPayload.answer answer_id) =
      answer_with event c a (option_of event.registration_question answer_id)
  answer_payload event c a _ = fail_assert

  unfoldable pub change_answer :
      Event → OrderedRegistrationCommand → Actor → Effect (World S) MutationResult
  unfolding record_promotions
  change_answer event c a = answer_payload event c a c.payload

  unfoldable pub cancel_participation :
      Event → OrderedRegistrationCommand → Actor → Effect (World S) MutationResult
  unfolding cancellation_snapshot_entry record_promotions
  cancel_participation event c a =
      save_removal event c.operation_id (
        if is_cancelled a.registration then [] else cancellation_snapshot_entry a.registration ∷ [])
      >> record_promotions now event c (some a.registration)
      >>= λ (event' : Event).
          (if a.linked
            then on_registrations (cancel_linked now event'.event_id c.operation_id a.actor_keys)
            else try_registrations (cancel now event'.event_id c.operation_id a.key))
          >> show event'
          >> pure (done "Участие отменено")
