-- ===== src/Application/Notifications/Promotions.antt =====
-- The notification of the one player whom a change of the roster moved up.
use rolebot_hse.Base.{
  ℕ, String, Bool, true, false, Option, none, some, List, [], ◌∷◌, length, mem, or_else, string_eq,
  option_eq, ◌==◌, if◌then◌else◌,
}
use rolebot_hse.Base.Text.{◌&◌}
use rolebot_hse.Errors.{Error}
use rolebot_hse.Dict.{values}
use rolebot_hse.Domain.Enums.{Operation, operation_eq}
use rolebot_hse.Domain.Event.{Datetime, Event}
use rolebot_hse.Domain.User.{Identity, User, local_identity}
use rolebot_hse.Domain.Command.{OrderedRegistrationCommand}
use rolebot_hse.Store.Events.Delivery.{
  mark_reserve_promotion_delivered, mark_confirmed_link_promotion_delivered,
}
use rolebot_hse.Application.Effects.{Effect, ◌>>=◌, ◌>>◌, pure, raise, if_present}
use rolebot_hse.Application.Mutations.{change_events}
use rolebot_hse.Application.Notifications.{
  Letter, State, Library, Gateways, was_told, user_rows, claim, required_event, deliver,
  deliver_all, first_with_key,
}
use rolebot_hse.Application.Notifications.Snapshot.{made, numbered}
use rolebot_hse.Application.Notifications.Texts.{main_menu, reserve_promotion_text, link_texts}

abbrev pub promoting_operations : List Operation
promoting_operations =
    Operation.cancel ∷ Operation.confirm ∷ Operation.remove_participant ∷ Operation.update_answer
    ∷ []

abbrev pub one_if : Bool → ℕ
one_if reached = if reached then 1 else 0

abbrev pub reserve_letter : String → Identity → String → Letter
reserve_letter request_id to text = record {
  to = to;
  request_id = request_id;
  text = text;
  buttons = main_menu;
}

-- The promotion is that of this command, and nobody was told of it before.
abbrev pub is_pending : Option String → Option String → String → Bool
is_pending promotion delivered operation_id =
    if promotion == some operation_id
    then if delivered == some operation_id then false else true
    else false

module _ {S : Type 0} (library : Library) (gateways : Gateways S) (now : Datetime) where
  -- A key of the snapshot that is still to be told, with the user who has it.
  abbrev pub promoted_user : Event → Option String → State S → Option User
  promoted_user event none w = none
  promoted_user event (some key) w =
      first_with_key gateways event.event_id key (values (user_rows w))

  abbrev pub tell_reserve : Event → String → Option User → Effect (State S) ℕ
  tell_reserve event operation_id none = pure 0
  tell_reserve event operation_id (some user) =
      let request_id = operation_id & ":reserve-promotion" in
      if was_told request_id user
      then pure 0
      else made (reserve_promotion_text library event) >>= λ text.
          deliver gateways (reserve_letter request_id (local_identity user) text) >>= λ reached.
          change_events (mark_reserve_promotion_delivered now event.event_id operation_id)
          >> claim (local_identity user) request_id main_menu
          >> pure (one_if reached)

  abbrev pub reserve_of : String → Event → Effect (State S) ℕ
  reserve_of operation_id event w =
      (if is_pending event.last_reserve_promotion_operation_id
            event.last_reserve_promotion_delivered_operation_id operation_id
          then tell_reserve event operation_id
              (promoted_user event event.last_reserve_promotion_participant_key w)
          else pure 0)
        w

  unfoldable pub notify_reserve_promotion :
      OrderedRegistrationCommand → Option String → Effect (State S) ℕ
  unfolding deliver first_with_key
  notify_reserve_promotion c event_id =
      if mem c.operation promoting_operations
      then required_event (or_else event_id c.event_id) >>= reserve_of c.operation_id
      else raise Error.value_error

  abbrev pub tell_link : Event → String → Option User → Effect (State S) ℕ
  tell_link event operation_id none = pure 0
  tell_link event operation_id (some user) =
      let texts = link_texts library event in
      deliver_all gateways none
        (numbered (local_identity user) (operation_id & ":confirmed-link-promotion") 0 texts)
      >>= λ (reached, last).
          change_events (mark_confirmed_link_promotion_delivered now event.event_id operation_id)
          >> if_present last (λ request_id. claim (local_identity user) request_id main_menu)
          >> pure (if reached then length texts else 0)

  abbrev pub link_of : String → Event → Effect (State S) ℕ
  link_of operation_id event w =
      (if is_pending event.last_confirmed_link_promotion_operation_id
            event.last_confirmed_link_promotion_delivered_operation_id operation_id
          then tell_link event operation_id
              (promoted_user event event.last_confirmed_link_promotion_participant_key w)
          else pure 0)
        w

  unfoldable pub notify_confirmed_link_promotion :
      OrderedRegistrationCommand → Option String → Effect (State S) ℕ
  unfolding deliver_all first_with_key
  notify_confirmed_link_promotion c event_id =
      if mem c.operation promoting_operations
      then required_event (or_else event_id c.event_id) >>= link_of c.operation_id
      else raise Error.value_error
