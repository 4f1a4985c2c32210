-- ===== src/Application/Notifications/Participants.antt =====
-- The notifications of many players by one command, and the bundle that a confirming player gets.
use rolebot_hse.Base.{
  ℕ, suc, String, Bool, true, false, not, ◌&&◌, ◌||◌, Option, none, some, List, [], ◌∷◌, length,
  mem, keep_if, nat_eq, pair_eq, string_eq, option_eq, ◌==◌, if◌then◌else◌,
}
use rolebot_hse.Base.Text.{◌&◌, decimal}
use rolebot_hse.Errors.{Result, ok, err, Error}
use rolebot_hse.Dict.{get, values}
use rolebot_hse.Domain.Enums.{platform_eq, Operation, operation_eq, AttendanceStatus, attendance_eq}
use rolebot_hse.Domain.Event.{Datetime, Event}
use rolebot_hse.Domain.User.{Identity, Button, User, local_identity}
use rolebot_hse.Domain.Registration.{Registration}
use rolebot_hse.Domain.Command.{OrderedRegistrationCommand, CommandPayload}
use rolebot_hse.Domain.Queues.{main_roster, keys_of}
use rolebot_hse.Store.Registrations.State.{list_for_event}
use rolebot_hse.Application.Effects.{Effect, ◌>>=◌, ◌>>◌, pure, raise, read}
use rolebot_hse.Application.Mutations.{Services}
use rolebot_hse.Application.Mutations.Catalog.{ensure_migrated, rows_of}
use rolebot_hse.Application.Notifications.{
  Letter, Outbox, State, Library, Gateways, was_told, user_rows, claim, required_event, deliver,
  deliver_all,
}
use rolebot_hse.Application.Notifications.ChatLinks.{is_plain_chat_link, chat_link_recipient_keys}
use rolebot_hse.Application.Notifications.Snapshot.{shown}
use rolebot_hse.Application.Notifications.Texts.{
  main_menu, confirmation_button, player_notification_text, confirmed_notification_text,
  confirmation_opened_text,
}

-- What `notify` makes of a command before it asks for the recipients.
pub record Notice : Type 0 where
  pub text : String
  pub statuses : List AttendanceStatus
  pub main_roster_only : Bool
  pub buttons : List Button

-- The keys of the registrations that `_recipients` selects; their order does not matter there.
abbrev pub recipient_keys : Event → List AttendanceStatus → Bool → List Registration → List String
recipient_keys event statuses main_roster_only rows = keys_of (
    keep_if
      (λ r.
        mem r.attendance_status statuses
        && (not main_roster_only || mem r.participant_key (keys_of (main_roster event rows))))
      rows)

module _ (library : Library) where
  abbrev pub confirmed_notice : Event → CommandPayload → Result Notice
  confirmed_notice event (CommandPayload.notification text) = ok (record {
    text = confirmed_notification_text library event.name text event.game_date;
    statuses = AttendanceStatus.confirmed ∷ [];
    main_roster_only = is_plain_chat_link library text;
    buttons = main_menu;
  })
  confirmed_notice event _ = err Error.assertion_error

  abbrev pub all_players_notice : Event → CommandPayload → Result Notice
  all_players_notice event (CommandPayload.notification text) = ok (record {
    text = player_notification_text library event.name text event.game_date;
    statuses = AttendanceStatus.waiting ∷ AttendanceStatus.confirmed ∷ [];
    main_roster_only = false;
    buttons = main_menu;
  })
  all_players_notice event _ = err Error.assertion_error

  abbrev pub deadline_notice : Bool → Event → Option Datetime → Result Notice
  deadline_notice opened event none = err Error.domain_error
  deadline_notice opened event (some deadline) = ok (record {
    text = confirmation_opened_text library opened event deadline;
    statuses = AttendanceStatus.waiting ∷ [];
    main_roster_only = false;
    buttons = confirmation_button event.event_id ∷ [];
  })

  unfoldable pub notice_of : OrderedRegistrationCommand → Event → Result Notice
  notice_of c event =
      if c.operation == Operation.send_confirmed_notification
      then confirmed_notice event c.payload
      else if c.operation == Operation.send_all_players_notification
      then all_players_notice event c.payload
      else deadline_notice
          (mem c.operation
            (Operation.open_confirmation ∷ Operation.scheduled_open_confirmation ∷ []))
          event event.confirmation_deadline

abbrev pub notification_operations : List Operation
notification_operations =
    Operation.open_confirmation ∷ Operation.scheduled_open_confirmation
    ∷ Operation.send_confirmation_reminder ∷ Operation.send_confirmed_notification
    ∷ Operation.send_all_players_notification ∷ []

abbrev pub notification_id : String → Identity → String
notification_id operation_id to = operation_id & ":confirmation-notification:" & shown to

module _ {S : Type 0} (gateways : Gateways S) where
  -- The users whose key for this event is among the keys.
  unfoldable pub users_with_keys : String → List String → List User → List User
  users_with_keys event_id keys [] = []
  users_with_keys event_id keys (user ∷ users) =
      let rest = users_with_keys event_id keys users in
      if mem (gateways.participant_key (local_identity user) event_id) keys
      then user ∷ rest
      else rest

  -- The loop of `notify`, with the number of those who were reached.
  unfoldable pub notify_each : String → Notice → ℕ → List User → Effect (State S) ℕ
  unfolding deliver
  notify_each operation_id notice delivered [] = pure delivered
  notify_each operation_id notice delivered (user ∷ users) =
      elim (was_told (notification_id operation_id (local_identity user)) user) [
        | true ↦ notify_each operation_id notice delivered users
        | false ↦
            deliver gateways (record {
              to = local_identity user;
              request_id = notification_id operation_id (local_identity user);
              text = notice.text;
              buttons = notice.buttons;
            })
            >>= λ reached.
                claim (local_identity user) (notification_id operation_id (local_identity user))
                  notice.buttons
                >> notify_each operation_id notice (if reached then suc delivered else delivered)
                    users
      ]

module _ {S : Type 0} (library : Library) (gateways : Gateways S) (services : Services (Outbox S))
    (now : Datetime) where
  unfoldable pub recipients : Event → List AttendanceStatus → Bool → Effect (State S) (List User)
  unfolding users_with_keys ensure_migrated
  recipients event statuses main_roster_only = ensure_migrated services now event >>= λ _.
      rows_of services now event.event_id >>= λ rows. read (λ w.
        users_with_keys gateways event.event_id
          (recipient_keys event statuses main_roster_only rows) (values (user_rows w)))

  abbrev pub send_notice : OrderedRegistrationCommand → Event → Result Notice → Effect (State S) ℕ
  send_notice c event (err e) = raise e
  send_notice c event (ok notice) =
      recipients event notice.statuses notice.main_roster_only
      >>= notify_each gateways c.operation_id notice 0

  unfoldable pub notify : OrderedRegistrationCommand → Effect (State S) ℕ
  unfolding recipients notify_each notice_of
  notify c =
      if mem c.operation notification_operations
      then (required_event c.event_id >>= λ event. send_notice c event (notice_of library c event))
      else raise Error.value_error

module _ (library : Library) where
  -- `enumerate(event.confirmed_notifications)`, without the links that the player may not have
  unfoldable pub past_letters :
      OrderedRegistrationCommand → Event → Bool → ℕ → List String → List Letter
  unfolding is_plain_chat_link
  past_letters c event gets_links index [] = []
  past_letters c event gets_links index (text ∷ texts) =
      let rest = past_letters c event gets_links (suc index) texts in
      if not (is_plain_chat_link library text) || gets_links
      then record {
        to = (c.platform, c.platform_user_id);
        request_id = c.operation_id & ":past-confirmed-notification:" & decimal index;
        text = confirmed_notification_text library event.name text event.game_date;
        buttons = main_menu;
      }
        ∷ rest
      else rest

abbrev pub author : OrderedRegistrationCommand → Identity
author c = (c.platform, c.platform_user_id)

-- `command.participant_key in link_recipients`
abbrev pub is_in : Option String → List String → Bool
is_in none keys = false
is_in (some key) keys = mem key keys

abbrev pub menu_if : List Letter → List Button → List Button
menu_if [] buttons = buttons
menu_if (_ ∷ _) buttons = main_menu

abbrev pub user_was_told : String → Option User → Bool
user_was_told request_id none = false
user_was_told request_id (some user) = was_told request_id user

module _ {S : Type 0} (library : Library) (gateways : Gateways S) where
  abbrev pub letters_for : OrderedRegistrationCommand → Event → List Registration → List Letter
  letters_for c event rows =
      past_letters library c event (is_in c.participant_key (chat_link_recipient_keys rows event)) 0
        event.confirmed_notifications

  -- The bundle behind the reply, and the one marker of it all.
  abbrev pub send_past : OrderedRegistrationCommand → List Button → List Letter → Effect (State S) ℕ
  send_past c buttons letters = deliver_all gateways none letters >>= λ _.
      claim (author c) c.operation_id (menu_if letters buttons) >> pure (length letters)

  abbrev pub after_reply :
      OrderedRegistrationCommand → List Button → Event → Bool → Effect (State S) ℕ
  after_reply c buttons event false w = (claim (author c) c.operation_id buttons >> pure 0) w
  after_reply c buttons event true w =
      send_past c buttons (letters_for c event (list_for_event event.event_id w.registrations.rows))
        w

  abbrev pub reply_to :
      OrderedRegistrationCommand → String → List Button → Event → Effect (State S) ℕ
  reply_to c text buttons event =
      deliver gateways (record {
        to = author c;
        request_id = c.operation_id & ":confirmation-result";
        text = text;
        buttons = buttons;
      })
      >>= after_reply c buttons event

  unfoldable pub notify_confirming_participant :
      OrderedRegistrationCommand → String → List Button → Effect (State S) ℕ
  unfolding deliver deliver_all past_letters chat_link_recipient_keys
  notify_confirming_participant c text buttons w =
      (if c.operation == Operation.confirm
          then if user_was_told c.operation_id (get (author c) (user_rows w))
            then pure 0
            else required_event c.event_id >>= reply_to c text buttons
          else raise Error.value_error)
        w
