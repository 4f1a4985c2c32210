-- ===== src/Application/Notifications/Participation.antt =====
-- The report of a signup or a confirmation to the masters, once for each person who leads the game.
use rolebot_hse.Base.{
  ℕ, suc, String, Bool, true, false, ◌&&◌, Option, none, some, List, [], ◌∷◌, ◌++◌, map, leb, mem,
  any_of, is_some, nat_eq, pair_eq, string_eq, option_eq, ◌==◌, if◌then◌else◌,
}
use rolebot_hse.Base.Order.{text_lt, nat_order, text_order, pair_order}
use rolebot_hse.Base.Sort.{sort_by}
use rolebot_hse.Base.Text.{◌&◌, decimal}
use rolebot_hse.Base.Words.{split, is_empty}
use rolebot_hse.Errors.{Result, ok, err, Error}
use rolebot_hse.Dict.{get}
use rolebot_hse.Domain.Enums.{
  Platform, platform_eq, Operation, operation_eq, AttendanceStatus, attendance_eq,
}
use rolebot_hse.Domain.Event.{Event}
use rolebot_hse.Domain.User.{Identity, Button}
use rolebot_hse.Domain.Registration.{Registration}
use rolebot_hse.Domain.Command.{OrderedRegistrationCommand}
use rolebot_hse.Domain.Queues.{active_queue, answer_capacity, position_from}
use rolebot_hse.Store.Registrations.State.{
  list_for_event, participation_notification_delivered, mark_participation_notification_delivered,
}
use rolebot_hse.Store.Users.{identities_for_local_user}
use rolebot_hse.Application.Effects.{Effect, ◌>>=◌, ◌>>◌, pure, raise, when, write}
use rolebot_hse.Application.Notifications.{
  Letter, State, Library, Gateways, claim, required_event, deliver,
}
use rolebot_hse.Application.Notifications.Masters.{Master, event_master_records}
use rolebot_hse.Application.Notifications.Snapshot.{shown}
use rolebot_hse.Application.Notifications.Texts.{reference, answer_text}

-- `min` of texts, where there is one
unfoldable pub least : String → List String → String
least s [] = s
least s (t ∷ ts) = least (if text_lt t s then t else s) ts

abbrev pub least_of : List String → String
least_of [] = ""
least_of (s ∷ ss) = least s ss

-- Telegram first, and then by the id.
abbrev pub telegram_first : Master → ℕ × ℕ
telegram_first ((platform, user_id), profile) =
    ((if platform == Platform.telegram then 0 else 1), user_id)

module _ {S : Type 0} where
  abbrev pub was_reported : String → String → String → State S → Bool
  was_reported event_id key request_id w =
      participation_notification_delivered event_id key request_id w.registrations

  abbrev pub mark_reported : String → String → String → Effect (State S) (Unit {0})
  mark_reported event_id key request_id = write (λ w. record w {
    registrations =
        mark_participation_notification_delivered event_id key request_id w.registrations;
  })

-- What all masters are sent, and the marks that this leaves.
pub record Report : Type 0 where
  pub operation_id : String
  pub event_id : String
  pub participant_key : String
  pub text : String
  pub buttons : List Button

-- Stable for linked accounts even if the local recipient that is selected changes.
unfoldable pub report_id : Report → List Identity → String
unfolding least
report_id report identities =
    report.operation_id & ":master-participation:" & least_of (map shown identities)

module _ {S : Type 0} (gateways : Gateways S) where
  abbrev pub report_letter : Report → Identity → String → Letter
  report_letter report to request_id = record {
    to = to;
    request_id = request_id;
    text = report.text;
    buttons = report.buttons;
  }

  -- One master who is told, from the letter to the markers.
  unfoldable pub report_to : Report → Identity → String → Effect (State S) Bool
  unfolding deliver
  report_to report identity request_id =
      deliver gateways (report_letter report identity request_id) >>= λ reached.
      mark_reported report.event_id report.participant_key request_id
      >> when reached (claim identity request_id report.buttons)
      >> pure reached

  -- The loop; `seen` has the identities of those who need no letter any more.
  unfoldable pub report_each : Report → List Identity → ℕ → List Master → Effect (State S) ℕ
  unfolding report_to
  report_each report seen delivered [] w = (ok delivered, w)
  report_each report seen delivered ((identity, profile) ∷ masters) w =
      let identities = identities_for_local_user w.users identity in
      elim (any_of (λ i. mem i seen) identities) [
        | true ↦ report_each report seen delivered masters w
        | false ↦
            elim (was_reported report.event_id report.participant_key (report_id report identities)
              w) [
                | true ↦ report_each report (identities ++ seen) delivered masters w
                | false ↦
                    (report_to report identity (report_id report identities) >>= λ reached.
                    report_each report (identities ++ seen)
                      (if reached then suc delivered else delivered) masters)
                      w
              ]
      ]

abbrev pub expected_status : Operation → AttendanceStatus
expected_status operation =
    if operation == Operation.enlist then AttendanceStatus.waiting else AttendanceStatus.confirmed

abbrev pub queued_answer : Event → Registration → Option String
queued_answer event r = if is_some event.registration_question then r.answer_id else none

module _ {S : Type 0} (library : Library) (gateways : Gateways S) where
  abbrev pub with_surname : List String → String
  with_surname [] = "не указан"
  with_surname (surname ∷ []) = surname
  with_surname (surname ∷ name ∷ _) = name & " " & surname

  abbrev pub with_nickname : Option String → String
  with_nickname none = ""
  with_nickname (some nickname) = if is_empty nickname then "" else " (" & nickname & ")"

  abbrev pub report_text : Bool → Event → Registration → ℕ → ℕ → String
  report_text is_signup event r position capacity =
      (if is_signup then "📝" else "✅")
      & " "
      & with_surname (split library.isspace r.display_name)
      & with_nickname r.nickname
      & " "
      & (if is_signup then "записался на игру" else "подтвердил участие в игре")
      & " "
      & reference library event
      & ".\n"
      & (if leb position capacity then "Основной состав" else "Запас")
      & ", место "
      & decimal position
      & "."
      & (if is_some event.registration_question then "\n" & answer_text event r else "")

  abbrev pub report_of : OrderedRegistrationCommand → Event → String → Registration → ℕ → ℕ → Report
  report_of c event key r position capacity = record {
    operation_id = c.operation_id;
    event_id = event.event_id;
    participant_key = key;
    text = report_text (c.operation == Operation.enlist) event r position capacity;
    buttons = record { label = "Управление игрой"; value = "ag:manage:" & event.event_id } ∷ [];
  }

  abbrev pub report_all : OrderedRegistrationCommand → Report → Effect (State S) ℕ
  report_all c report w =
      report_each gateways report
        (identities_for_local_user w.users (c.platform, c.platform_user_id)) 0
        (sort_by telegram_first (event_master_records library w.users report.event_id w.events)) w

  abbrev pub report_with :
      OrderedRegistrationCommand → Event → String → Registration → ℕ → Result ℕ → Effect (State S) ℕ
  report_with c event key r position (err e) = raise e
  report_with c event key r position (ok capacity) =
      report_all c (report_of c event key r position capacity)

  -- The position that the player has, where `next` finds it, and the capacity of the answer.
  abbrev pub report_at :
      OrderedRegistrationCommand → Event → String → Registration → Option ℕ → Effect (State S) ℕ
  report_at c event key r none = raise Error.runtime_error
  report_at c event key r (some position) =
      report_with c event key r position (answer_capacity event r.answer_id)

  -- A registration that this command wrote, and that no later one has changed.
  abbrev pub report_on :
      OrderedRegistrationCommand → Event → String → Option Registration → Effect (State S) ℕ
  report_on c event key none w = (ok 0, w)
  report_on c event key (some r) w =
      (if r.last_operation_id == c.operation_id
            && r.attendance_status == expected_status c.operation
          then report_at c event key r (
              position_from 1 r.participant_key (
                active_queue (list_for_event event.event_id w.registrations.rows)
                  (queued_answer event r)))
          else pure 0)
        w

  abbrev pub report_key : OrderedRegistrationCommand → Event → Option String → Effect (State S) ℕ
  report_key c event none w = (err Error.value_error, w)
  report_key c event (some key) w =
      report_on c event key (get (event.event_id, key) w.registrations.rows) w

  unfoldable pub notify_masters_of_participation : OrderedRegistrationCommand → Effect (State S) ℕ
  unfolding report_each event_master_records
  notify_masters_of_participation c =
      if mem c.operation (Operation.enlist ∷ Operation.confirm ∷ [])
      then (required_event c.event_id >>= λ event. report_key c event c.participant_key)
      else raise Error.value_error
