-- ===== src/Tests/Notifications.antt =====
-- Notifications of a ball with a sifted queue, by a transport that delivers everything.
use rolebot_hse.Store.Events.Delivery.{
  mark_participant_removal_delivered, mark_reserve_promotion_delivered,
}
use rolebot_hse.Application.TableLinks.{for_player, public_table_links}
use rolebot_hse.Application.Notifications.Texts.{sift_promotion_text, reserve_promotion_text}
use rolebot_hse.Domain.Queues.{main_roster, active_queue}
use rolebot_hse.Base.Sort.{sort_by, insert_by}
use rolebot_hse.Store.Registrations.State.{list_for_event}
use rolebot_hse.Base.Prefix.{strip_prefix}
use rolebot_hse.Base.{
  ℕ, ◌≡◌, ◌≤◌, ◌<◌, refl, true, none, some, [], ◌∷◌, mem, arith, string_eq, nat_eq, pair_eq,
}
use Prim.Native.Char.{code}
use rolebot_hse.Base.{◌==◌}
use rolebot_hse.Base.Text.{◌&◌, decimal}
use rolebot_hse.Base.Words.{message_length, any_space, strip}
use rolebot_hse.Errors.{ok}
use rolebot_hse.Dict.{get}
use rolebot_hse.Domain.Enums.{Platform, platform_eq, platform_value, Operation, AttendanceStatus}
use rolebot_hse.Domain.Event.{Event}
use rolebot_hse.Domain.Registration.{Registration}
use rolebot_hse.Domain.Command.{OrderedRegistrationCommand, CommandPayload}
use rolebot_hse.Application.GameClosings.Actions.{system_command}
use rolebot_hse.Application.Support.{Sending}
use rolebot_hse.Application.Notifications.{Outbox, State, Library, Gateways, identities_in}
use rolebot_hse.Application.Notifications.Snapshot.{
  notify_sifted_participants, notify_removed_participants,
}
use rolebot_hse.Application.Notifications.Retry.{notify_sifted_participants_again}
use rolebot_hse.Store.Users.{identities_for_local_user}
use rolebot_hse.Application.Mutations.{Services}
use rolebot_hse.Application.Notifications.Told.{notify_again}
use rolebot_hse.Application.Notifications.Moved.{notify_reserve_promotion_again}
use rolebot_hse.Application.Notifications.Confirmed.{notify_confirming_participant_again}
use rolebot_hse.Application.Notifications.Reported.{
  letters_to, notify_masters_of_participation-apart,
}
use rolebot_hse.Application.Notifications.Participation.{notify_masters_of_participation}
use rolebot_hse.Application.Notifications.Promotions.{notify_reserve_promotion}
use rolebot_hse.Application.Notifications.Participants.{notify, notify_confirming_participant}
use rolebot_hse.Application.Notifications.Live.{
  NeverFails, all_marked, notify_removed_participants_ok,
}
use rolebot_hse.Application.Notifications.Success.{
  max_message_length, compose, confirmation_success_text, confirmation_success_text-fits,
}
use rolebot_hse.Tests.Services.{silent}
use rolebot_hse.Tests.Data.{game, player, users, on_telegram}

abbrev pub library : Library
library = record {
  isspace = λ c. code c == 32;
  casefold = λ s. s;
  urlsplit = λ s. none;
  telegram_chat_path = λ s. true;
  vk_chat_path = λ s. true;
  format_game_date = decimal;
  format_confirmation_deadline = decimal;
}

abbrev gateways : Gateways (Unit {0})
gateways = record {
  participant_key = λ i event_id. platform_value i.0 & ":" & decimal i.1;
  transport = λ attempts letter. Sending.delivered;
  kick_member = none;
}

abbrev ball : Event
ball = record (game "ball" 1 5) {
  public_table_public_url = some "https://disk/table";
  registrations_migrated_at = some 5;
}

abbrev vera : Registration
vera = player "ball" "telegram:5" AttendanceStatus.confirmed 30

abbrev world : Event → State (Unit {0})
world event = record {
  events = record {
    rows = ("ball", event) ∷ [];
    leaders = ("ball", (Platform.telegram, 5) ∷ []) ∷ [];
  };
  registrations = record {
    participation_deliveries = [];
    rows = (("ball", "telegram:5"), vera) ∷ [];
  };
  users = some users;
  rest = record { attempts = []; rest = tt };
}

abbrev command : Operation → OrderedRegistrationCommand
command operation = record (system_command 9 "ball" "op5" operation) {
  platform = Platform.telegram;
  platform_user_id = 5;
  participant_key = some "telegram:5";
}

-- Vera was moved up by the sifting.
abbrev sifted : Event
sifted = record ball {
  last_participant_removal_operation_id = some "op5";
  participant_removal_keys = "promoted:telegram:5" ∷ [];
}

abbrev sifting : OrderedRegistrationCommand
sifting = command Operation.remove_waiting_participants

abbrev after_sift : State (Unit {0})
after_sift = (notify_sifted_participants library gateways 9 sifting (world sifted)).1

sift_run : notify_sifted_participants library gateways 9 sifting (world sifted) ≡ (ok 1, after_sift)
unfolding notify_sifted_participants strip_prefix list_for_event sort_by insert_by main_roster
    active_queue platform_value decimal sift_promotion_text for_player public_table_links
    mark_participant_removal_delivered
sift_run = refl

notify_sifted_participants_again_example :
    notify_sifted_participants library gateways 9 sifting after_sift ≡ (ok 0, after_sift)
notify_sifted_participants_again_example =
    notify_sifted_participants_again library gateways 9 sifting 1 (world sifted) after_sift sifted
      refl refl sift_run

-- The same players get a notice of the masters, and everybody is told of it once.
abbrev notice : OrderedRegistrationCommand
notice = record (command Operation.send_all_players_notification) {
  payload = CommandPayload.notification "Сбор в шесть";
}

abbrev services : Services (Outbox (Unit {0}))
services = silent

abbrev after_notice : State (Unit {0})
after_notice = (notify library gateways services 9 notice (world ball)).1

notice_run : notify library gateways services 9 notice (world ball) ≡ (ok 1, after_notice)
unfolding notify list_for_event sort_by insert_by platform_value decimal
notice_run = refl

notify_again_example : notify library gateways services 9 notice after_notice ≡ (ok 0, after_notice)
notify_again_example =
    notify_again library gateways services 9 notice ball 5 1 (world ball) after_notice refl refl
      (refl, refl, (refl, refl, tt)) notice_run

-- Vera moved up from the reserve when another player cancelled.
abbrev moved : Event
moved = record ball {
  last_reserve_promotion_operation_id = some "op5";
  last_reserve_promotion_participant_key = some "telegram:5";
}

abbrev cancelling : OrderedRegistrationCommand
cancelling = command Operation.cancel

abbrev after_promotion : State (Unit {0})
after_promotion = (notify_reserve_promotion library gateways 9 cancelling none (world moved)).1

promotion_run :
    notify_reserve_promotion library gateways 9 cancelling none (world moved)
    ≡ (ok 1, after_promotion)
unfolding notify_reserve_promotion platform_value decimal reserve_promotion_text for_player
    public_table_links mark_reserve_promotion_delivered
promotion_run = refl

notify_reserve_promotion_again_example :
    notify_reserve_promotion library gateways 9 cancelling none after_promotion
    ≡ (ok 0, after_promotion)
notify_reserve_promotion_again_example =
    notify_reserve_promotion_again library gateways 9 cancelling none moved 1 (world moved)
      after_promotion refl refl promotion_run

-- Vera confirms, and gets one message of the masters from before.
abbrev announced : Event
announced = record ball { confirmed_notifications = "Возьмите маски" ∷ [] }

abbrev confirming : OrderedRegistrationCommand
confirming = command Operation.confirm

abbrev after_bundle : State (Unit {0})
after_bundle =
    (notify_confirming_participant library gateways confirming "подтверждено" []
      (world announced)).1

bundle_run :
    notify_confirming_participant library gateways confirming "подтверждено" [] (world announced)
    ≡ (ok 1, after_bundle)
unfolding notify_confirming_participant strip any_space
bundle_run = refl

notify_confirming_participant_again_example :
    notify_confirming_participant library gateways confirming "подтверждено" [] after_bundle
    ≡ (ok 0, after_bundle)
notify_confirming_participant_again_example =
    notify_confirming_participant_again library gateways confirming "подтверждено" [] on_telegram 1
      (world announced) after_bundle refl bundle_run

-- Vera leads the game too, and signed up from Telegram; her profile in VK is left alone as well.
own_vk : mem (Platform.vk, 6) (identities_for_local_user (some users) (Platform.telegram, 5)) ≡ true
unfolding identities_for_local_user
own_vk = refl

-- The confirmation that the masters are told of.
abbrev reported : State (Unit {0})
reported = record (world ball) {
  registrations = record {
    participation_deliveries = [];
    rows = (("ball", "telegram:5"), record vera { last_operation_id = "op5" }) ∷ [];
  };
}

notify_masters_of_participation-apart_example :
    letters_to
      (Platform.vk, 6)
      (notify_masters_of_participation library gateways confirming reported).1
    ≡ []
notify_masters_of_participation-apart_example =
    notify_masters_of_participation-apart library gateways confirming (Platform.vk, 6) reported
      (refl, (refl, tt)) own_vk

-- Vera was removed.
abbrev removed : Event
removed = record ball {
  last_participant_removal_operation_id = some "op5";
  participant_removal_keys = "telegram:5" ∷ "vk:9" ∷ [];
}

always_delivers : NeverFails gateways
always_delivers attempts letter h = cc

notify_removed_participants_ok_example :
    (n : ℕ) × (w' : State (Unit {0})) × (e' : Event) × (notify_removed_participants library gateways
        9
        (command Operation.remove_participant)
        (world removed)
      ≡ (ok n, w'))
    × (get "ball" w'.events.rows ≡ some e')
    × (all_marked library gateways always_delivers 9 removed
          (identities_in (world removed))
          e'.participant_removal_notified_keys
          removed.participant_removal_keys
        ≡ true)
notify_removed_participants_ok_example =
    notify_removed_participants_ok library gateways always_delivers 9
      (command Operation.remove_participant) removed (world removed) refl refl refl refl

room : message_length (compose library ball [] true "") < max_message_length
unfolding compose message_length decimal
room = omega arith

confirmation_success_text-fits_example :
    message_length (confirmation_success_text library ball [] "Хочу быть принцем" true)
    ≤ max_message_length
confirmation_success_text-fits_example =
    confirmation_success_text-fits library ball [] "Хочу быть принцем" true room
