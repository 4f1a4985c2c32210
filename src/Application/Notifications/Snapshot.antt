-- ===== src/Application/Notifications/Snapshot.antt =====
-- The notifications that a snapshot of the event tells of: what is delivered is marked there, so that
-- a retry of the command goes on behind it.
use rolebot_hse.Base.{
  ℕ, suc, String, Bool, true, false, Option, none, some, List, [], ◌∷◌, map, mem, or_else,
  string_eq, option_eq, ◌==◌, if◌then◌else◌,
}
use rolebot_hse.Base.Text.{◌&◌, decimal}
use rolebot_hse.Errors.{Result, ok, err, Error}
use rolebot_hse.Domain.Enums.{
  Operation, operation_eq, AttendanceStatus, attendance_eq, platform_value,
}
use rolebot_hse.Domain.Event.{Datetime, Event}
use rolebot_hse.Domain.User.{Identity}
use rolebot_hse.Domain.Registration.{Registration}
use rolebot_hse.Domain.Command.{OrderedRegistrationCommand}
use rolebot_hse.Store.Events.Delivery.{mark_participant_removal_delivered}
use rolebot_hse.Store.Registrations.State.{list_for_event}
use rolebot_hse.Application.Effects.{Effect, ◌>>=◌, ◌>>◌, pure, raise}
use rolebot_hse.Application.Support.{sift_promoted_prefix, parse_sift_snapshot_entry}
use rolebot_hse.Application.Mutations.{change_events}
use rolebot_hse.Application.Mutations.Rosters.{status_of, current_sift_entries}
use rolebot_hse.Application.Notifications.{
  Letter, State, Library, Gateways, claim, required_event, deliver_all, last_with_key,
  identities_in,
}
use rolebot_hse.Application.Notifications.Texts.{
  main_menu, link_texts, capacity_promotion_text, sift_promotion_text, demotion_text, removal_text,
}

-- What one entry of the snapshot has its recipient told; a text may fail to be made.
pub record Parcel : Type 0 where
  pub to : Identity
  pub letters : Result (List Letter)

abbrev pub shown : Identity → String
shown (platform, user_id) = platform_value platform & ":" & decimal user_id

-- `enumerate` of the texts, as letters whose request ids end in the index
abbrev pub numbered : Identity → String → ℕ → List String → List Letter
numbered to prefix index [] = []
numbered to prefix index (text ∷ texts) =
    record { to = to; request_id = prefix & ":" & decimal index; text = text; buttons = main_menu }
    ∷ numbered to prefix (suc index) texts

abbrev pub with_letters : {A : Type 0} → (A → List Letter) → Result A → Result (List Letter)
with_letters f (ok a) = ok (f a)
with_letters f (err e) = err e

module _ {S : Type 0} where
  abbrev pub made : {A : Type 0} → Result A → Effect (State S) A
  made (ok a) = pure a
  made (err e) = raise e

module _ {S : Type 0} (gateways : Gateways S) (now : Datetime) where
  -- One turn of the loop, from the texts to the two markers.
  unfoldable pub send_parcel : String → String → String → Parcel → Effect (State S) Bool
  unfolding deliver_all
  send_parcel event_id operation_id entry parcel = made parcel.letters >>= λ letters.
      deliver_all gateways none letters >>= λ (reached, last).
      change_events (mark_participant_removal_delivered now event_id operation_id entry)
      >> claim parcel.to (or_else last "") main_menu
      >> pure reached

  -- The loop over the entries, each with its parcel, which is `none` where the loop goes on to the
  -- next entry. The result is the number of those who were reached.
  unfoldable pub deliver_each :
      String → String → List String → ℕ → List (String × Option Parcel) → Effect (State S) ℕ
  unfolding send_parcel
  deliver_each event_id operation_id notified delivered [] = pure delivered
  deliver_each event_id operation_id notified delivered ((entry, none) ∷ entries) =
      deliver_each event_id operation_id notified delivered entries
  deliver_each event_id operation_id notified delivered ((entry, some parcel) ∷ entries) =
      elim (mem entry notified) [
        | true ↦ deliver_each event_id operation_id notified delivered entries
        | false ↦ send_parcel event_id operation_id entry parcel >>= λ reached.
            deliver_each event_id operation_id (entry ∷ notified)
              (if reached then suc delivered else delivered) entries
      ]

  -- What a method does with the event that it found.
  abbrev pub deliver_planned :
      String → (Event → State S → List (String × Option Parcel)) → Event → Effect (State S) ℕ
  deliver_planned operation_id plan event w =
      (if event.last_participant_removal_operation_id == some operation_id
          then deliver_each event.event_id operation_id event.participant_removal_notified_keys 0
              (plan event w)
          else pure 0)
        w

  -- The start of these methods: the operation, the event, and whose snapshot it has.
  unfoldable pub notify_planned :
      List Operation
      → (Event → State S → List (String × Option Parcel))
      → OrderedRegistrationCommand
      → Effect (State S) ℕ
  unfolding deliver_each
  notify_planned operations plan c =
      if mem c.operation operations
      then required_event c.event_id >>= deliver_planned c.operation_id plan
      else raise Error.value_error

module _ {S : Type 0} (library : Library) (gateways : Gateways S) where
  -- `f"{operation_id}:participant-removal:..."`
  abbrev pub removal_letter : Event → String → Identity → Letter
  removal_letter event operation_id to = record {
    to = to;
    request_id = operation_id & ":participant-removal:" & shown to;
    text = removal_text library event;
    buttons = main_menu;
  }

  abbrev pub removal_parcel : Event → String → Option Identity → Option Parcel
  removal_parcel event operation_id none = none
  removal_parcel event operation_id (some to) =
      some (record { to = to; letters = ok (removal_letter event operation_id to ∷ []) })

  unfoldable pub removal_plan : String → Event → List Identity → List (String × Option Parcel)
  unfolding last_with_key
  removal_plan operation_id event identities =
      map
        (λ key. (
          key,
          removal_parcel event operation_id (last_with_key gateways event.event_id key identities),
        ))
        event.participant_removal_keys

  abbrev pub capacity_letters :
      Event → String → Identity → Option AttendanceStatus → Result (List Letter)
  capacity_letters event operation_id to status =
      with_letters
        (λ text. numbered to (operation_id & ":capacity-promotion:" & shown to) 0 (
          text
          ∷ (if status == some AttendanceStatus.confirmed then link_texts library event else [])))
        (capacity_promotion_text library event)

  abbrev pub capacity_parcel :
      Event → String → Option AttendanceStatus → Option Identity → Option Parcel
  capacity_parcel event operation_id status none = none
  capacity_parcel event operation_id status (some to) =
      some (record { to = to; letters = capacity_letters event operation_id to status })

  unfoldable pub capacity_plan :
      String → Event → List Identity → List Registration → List (String × Option Parcel)
  unfolding last_with_key
  capacity_plan operation_id event identities rows =
      map
        (λ key. (
          key,
          capacity_parcel event operation_id (status_of key rows)
              (last_with_key gateways event.event_id key identities),
        ))
        event.participant_removal_keys

  abbrev pub promoted_letters : Event → String → Identity → Result (List Letter)
  promoted_letters event operation_id to =
      with_letters
        (λ text.
          numbered to (operation_id & ":confirmation-sift:promotion:" & shown to) 0
            (text ∷ link_texts library event))
        (sift_promotion_text library event)

  abbrev pub demoted_letters : Event → String → Bool → Identity → Result (List Letter)
  demoted_letters event operation_id by_masters to = ok (
      numbered to (operation_id & ":confirmation-sift:demotion:" & shown to) 0
        (demotion_text library by_masters event ∷ []))

  abbrev pub sift_parcel : Event → String → Bool → String → Option Identity → Option Parcel
  sift_parcel event operation_id by_masters transition none = none
  sift_parcel event operation_id by_masters transition (some to) = some (record {
    to = to;
    letters =
        if transition == sift_promoted_prefix
        then promoted_letters event operation_id to
        else demoted_letters event operation_id by_masters to;
  })

  -- An entry that does not parse, or that is not true any more, is passed over.
  abbrev pub parsed_parcel :
      Event → String → Bool → List Identity → Bool → Option (String × String) → Option Parcel
  parsed_parcel event operation_id by_masters identities is_current none = none
  parsed_parcel event operation_id by_masters identities false (some _) = none
  parsed_parcel event operation_id by_masters identities true (some (transition, key)) =
      sift_parcel event operation_id by_masters transition
        (last_with_key gateways event.event_id key identities)

  unfoldable pub sift_plan :
      String → Bool → Event → List Identity → List Registration → List (String × Option Parcel)
  unfolding last_with_key current_sift_entries parse_sift_snapshot_entry
  sift_plan operation_id by_masters event identities rows =
      map
        (λ entry. (
          entry,
          parsed_parcel event operation_id by_masters identities
              (mem entry (current_sift_entries event.participant_removal_keys rows event))
              (parse_sift_snapshot_entry entry),
        ))
        event.participant_removal_keys

module _ {S : Type 0} (library : Library) (gateways : Gateways S) (now : Datetime) where
  unfoldable pub notify_removed_participants : OrderedRegistrationCommand → Effect (State S) ℕ
  unfolding notify_planned removal_plan
  notify_removed_participants c =
      notify_planned gateways now (Operation.remove_participant ∷ [])
        (λ event w. removal_plan library gateways c.operation_id event (identities_in w)) c

  unfoldable pub notify_capacity_promotions : OrderedRegistrationCommand → Effect (State S) ℕ
  unfolding notify_planned capacity_plan
  notify_capacity_promotions c =
      notify_planned gateways now (Operation.update_player_amount ∷ [])
        (λ event w.
          capacity_plan library gateways c.operation_id event (identities_in w)
            (list_for_event event.event_id w.registrations.rows))
        c

  unfoldable pub notify_sifted_participants : OrderedRegistrationCommand → Effect (State S) ℕ
  unfolding notify_planned sift_plan
  notify_sifted_participants c =
      notify_planned gateways now
        (Operation.remove_waiting_participants ∷ Operation.promote_reserve_participant ∷ [])
        (λ event w.
          sift_plan library gateways c.operation_id
            (c.operation == Operation.promote_reserve_participant) event (identities_in w)
            (list_for_event event.event_id w.registrations.rows))
        c
