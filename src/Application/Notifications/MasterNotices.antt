-- ===== src/Application/Notifications/MasterNotices.antt =====
-- What the masters of a game are told of its players, and the removal of a player from the chat.
use rolebot_hse.Base.{
  ℕ, suc, String, Bool, true, false, Option, none, some, List, [], ◌∷◌, map, keep_if, nat_eq,
  pair_eq, string_eq, option_eq, ◌==◌, ◌!=◌, if◌then◌else◌,
}
use rolebot_hse.Base.Order.{nat_order, text_order, pair_order}
use rolebot_hse.Base.Text.{◌&◌}
use rolebot_hse.Errors.{ok, Error}
use rolebot_hse.Dict.{get}
use rolebot_hse.Domain.Enums.{platform_eq, Operation, operation_eq, attendance_eq}
use rolebot_hse.Domain.Event.{Datetime, Event}
use rolebot_hse.Domain.User.{Identity, User, base_of}
use rolebot_hse.Domain.Registration.{Registration}
use rolebot_hse.Domain.Command.{OrderedRegistrationCommand}
use rolebot_hse.Application.Effects.{Effect, ◌>>=◌, ◌>>◌, pure, raise}
use rolebot_hse.Application.Support.{parse_cancellation_snapshot_entry}
use rolebot_hse.Application.Notifications.{
  Letter, State, Library, Gateways, user_rows, claim, required_event, deliver,
}
use rolebot_hse.Application.Notifications.Masters.{Master, event_master_records}
use rolebot_hse.Application.Notifications.Participants.{user_was_told}
use rolebot_hse.Application.Notifications.Snapshot.{Parcel, shown, notify_planned}
use rolebot_hse.Application.Notifications.Texts.{
  main_menu, surname_and_name, cancellation_master_text,
}

-- The first entry that parses.
unfoldable pub first_cancellation : List String → Option (Bool × String)
unfolding parse_cancellation_snapshot_entry
first_cancellation [] = none
first_cancellation (entry ∷ entries) = elim (parse_cancellation_snapshot_entry entry) [
  | some parsed ↦ some parsed
  | none ↦ first_cancellation entries
]

-- Who is told of a cancellation, and the mark that this leaves.
abbrev pub master_mark : Identity → String
master_mark identity = "master:" & shown identity

abbrev pub master_letter : String → String → Identity → Letter
master_letter operation_id text to = record {
  to = to;
  request_id = operation_id & ":cancellation-master:" & shown to;
  text = text;
  buttons = main_menu;
}

abbrev pub marked_parcel : String → String → Identity → String × Option Parcel
marked_parcel operation_id text to = (
  master_mark to,
  some (record { to = to; letters = ok (master_letter operation_id text to ∷ []) }),
)

module _ (library : Library) where
  abbrev pub shown_name : Option String → String
  shown_name none = "не указан"
  shown_name (some full_name) = surname_and_name library full_name

  abbrev pub name_and_nickname : Option User → String × Option String
  name_and_nickname none = ("не указан", none)
  name_and_nickname (some user) = (shown_name (base_of user).full_name, (base_of user).nickname)

module _ {S : Type 0} (library : Library) where
  -- `_cancellation_masters`
  unfoldable pub cancellation_masters : String → OrderedRegistrationCommand → State S → List Master
  unfolding event_master_records
  cancellation_masters event_id c w =
      keep_if (λ master. master.0 != (c.platform, c.platform_user_id))
        (event_master_records library w.users event_id w.events)

  -- `_command_player_name`
  unfoldable pub command_player_name : OrderedRegistrationCommand → State S → String × Option String
  unfolding surname_and_name
  command_player_name c w =
      name_and_nickname library (get (c.platform, c.platform_user_id) (user_rows w))

  abbrev pub name_in :
      Option Registration → OrderedRegistrationCommand → State S → String × Option String
  name_in none c w = command_player_name c w
  name_in (some r) c w = (r.display_name, r.nickname)

  abbrev pub cancellation_text_of :
      Event → OrderedRegistrationCommand → Bool × String → State S → String
  cancellation_text_of event c (confirmed, key) w =
      let player = name_in (get (event.event_id, key) w.registrations.rows) c w in
      cancellation_master_text library event player.0 player.1 confirmed false

  abbrev pub parcels_of :
      Event
      → OrderedRegistrationCommand
      → Option (Bool × String)
      → State S
      → List (String × Option Parcel)
  parcels_of event c none w = []
  parcels_of event c (some cancellation) w =
      map
        (λ master.
          marked_parcel c.operation_id (cancellation_text_of event c cancellation w) master.0)
        (cancellation_masters event.event_id c w)

  unfoldable pub cancellation_plan :
      OrderedRegistrationCommand → Event → State S → List (String × Option Parcel)
  unfolding first_cancellation cancellation_masters command_player_name cancellation_master_text
  cancellation_plan c event w =
      parcels_of event c (first_cancellation event.participant_removal_keys) w

module _ {S : Type 0} (library : Library) (gateways : Gateways S) (now : Datetime) where
  unfoldable pub notify_masters_of_cancellation : OrderedRegistrationCommand → Effect (State S) ℕ
  unfolding notify_planned cancellation_plan
  notify_masters_of_cancellation c =
      notify_planned gateways now (Operation.cancel ∷ []) (cancellation_plan library c) c

  -- The loop over the masters of the other game of the day.
  unfoldable pub tell_masters : String → String → ℕ → List Master → Effect (State S) ℕ
  unfolding deliver
  tell_masters operation_id text delivered [] = pure delivered
  tell_masters operation_id text delivered ((identity, profile) ∷ masters) =
      elim (user_was_told (operation_id & ":cancellation-master:" & shown identity) profile) [
        | true ↦ tell_masters operation_id text delivered masters
        | false ↦ deliver gateways (master_letter operation_id text identity) >>= λ reached.
            claim identity (operation_id & ":cancellation-master:" & shown identity) main_menu
            >> tell_masters operation_id text (if reached then suc delivered else delivered) masters
      ]

  abbrev pub tell_replaced : OrderedRegistrationCommand → Event → Effect (State S) ℕ
  tell_replaced c event w =
      let player = command_player_name library c w in
      tell_masters c.operation_id
        (cancellation_master_text library event player.0 player.1 true true) 0
        (cancellation_masters library event.event_id c w) w

  unfoldable pub notify_masters_of_replaced_participation :
      OrderedRegistrationCommand → String → Effect (State S) ℕ
  unfolding tell_masters cancellation_masters command_player_name
  notify_masters_of_replaced_participation c event_id =
      if c.operation == Operation.confirm
      then required_event event_id >>= tell_replaced c
      else raise Error.value_error
