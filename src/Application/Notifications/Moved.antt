-- ===== src/Application/Notifications/Moved.antt =====
-- A promotion from the reserve is told of once.
use mathlib.Core.Path.{subst}
use rolebot_hse.Base.{
  ◌≡◌, refl, sym, ap, ◌∙◌, inl, inr, ℕ, String, Bool, true, false, Bool-cases, Option, none, some,
  or_else, string_eq, option_eq, nat_eq, pair_eq, if◌then◌else◌,
}
use rolebot_hse.Base.Text.{◌&◌}
use rolebot_hse.Errors.{Result, ok, err}
use rolebot_hse.Dict.{get}
use rolebot_hse.Domain.Enums.{platform_eq, operation_eq}
use rolebot_hse.Domain.Event.{Datetime, Event}
use rolebot_hse.Domain.User.{User, local_identity}
use rolebot_hse.Domain.Command.{OrderedRegistrationCommand}
use rolebot_hse.Store.Events.Delivery.{mark_reserve_promotion_delivered}
use rolebot_hse.Application.Effects.{Effect, ◌>>=◌, ◌>>◌, pure, continue, continue-ok}
use rolebot_hse.Application.Mutations.{change_events}
use rolebot_hse.Application.Notifications.{State, Library, Gateways, was_told, claim, deliver}
use rolebot_hse.Application.Notifications.Snapshot.{made}
use rolebot_hse.Application.Notifications.Texts.{main_menu, reserve_promotion_text}
use rolebot_hse.Application.Notifications.Promotions.{
  one_if, promoted_user, reserve_letter, tell_reserve, is_pending, reserve_of,
  notify_reserve_promotion,
}
use rolebot_hse.Application.Notifications.Once.{
  event_after, of_event_again, returned_zero, is_pending-told, once_again, IsOnce,
}

module _ {S : Type 0} (library : Library) (gateways : Gateways S) (now : Datetime) where
  -- The event after `mark_reserve_promotion_delivered`.
  abbrev told_reserve : String → Event → Event
  told_reserve op e = record e {
    last_reserve_promotion_delivered_operation_id = some op;
    updated_at = now;
  }

  tell_reserve-IsOnce :
      (op : String) (e : Event) (o : Option User) (n : ℕ) (w w' : State S)
      → get e.event_id w.events.rows ≡ some e
      → tell_reserve library gateways now e op o w ≡ (ok n, w')
      → IsOnce e (told_reserve op e) n w w'
  unfolding deliver mark_reserve_promotion_delivered
  tell_reserve-IsOnce op e none n w w' g h = inl (returned_zero n w w' h)
  tell_reserve-IsOnce op e (some user) n w w' g h =
      by_mark (was_told (op & ":reserve-promotion") user) h
    where
      send : String → Effect (State S) ℕ
      send text =
          deliver gateways (reserve_letter (op & ":reserve-promotion") (local_identity user) text)
          >>= λ reached.
              change_events (mark_reserve_promotion_delivered now e.event_id op)
              >> claim (local_identity user) (op & ":reserve-promotion") main_menu
              >> pure (one_if reached)

      by_text :
          (r : Result String)
          → (made r >>= send) w ≡ (ok n, w')
          → IsOnce e (told_reserve op e) n w w'
      by_text (err x) k = cc
      by_text (ok text) k =
          let (reached, s, p, q) =
            continue-ok
              (λ reached.
                change_events (mark_reserve_promotion_delivered now e.event_id op)
                >> claim (local_identity user) (op & ":reserve-promotion") main_menu
                >> pure (one_if reached))
              (deliver gateways
                (reserve_letter (op & ":reserve-promotion") (local_identity user) text) w)
              n w' k in
          inr (
            event_after e.event_id (told_reserve op) e n s w'
              (λ x.
                continue (λ _. pure (one_if reached))
                  (continue (λ _. claim (local_identity user) (op & ":reserve-promotion") main_menu)
                    x))
              (λ v. refl) (ap (λ x. get e.event_id x.rows) (sym (ap (λ x. x.1.events) p)) ∙ g) q)

      by_mark :
          (told : Bool)
          → (if told then pure 0 else made (reserve_promotion_text library e) >>= send) w
            ≡ (ok n, w')
          → IsOnce e (told_reserve op e) n w w'
      by_mark true k = inl (returned_zero n w w' k)
      by_mark false k = by_text (reserve_promotion_text library e) k

  reserve_of-IsOnce :
      (op : String) (e : Event) (n : ℕ) (w w' : State S)
      → get e.event_id w.events.rows ≡ some e
      → reserve_of library gateways now op e w ≡ (ok n, w')
      → IsOnce e (told_reserve op e) n w w'
  reserve_of-IsOnce op e n w w' g h =
      elim (Bool-cases (
        is_pending e.last_reserve_promotion_operation_id
          e.last_reserve_promotion_delivered_operation_id op)) [
            | inl pending ↦
                tell_reserve-IsOnce op e
                  (promoted_user library gateways now e e.last_reserve_promotion_participant_key w)
                  n w w' g (rw pending at h)
            | inr settled ↦ inl (returned_zero n w w' (rw settled at h))
          ]

  reserve_of_again :
      (op : String) (e : Event) (n : ℕ) (w w' : State S)
      → get e.event_id w.events.rows ≡ some e
      → reserve_of library gateways now op e w ≡ (ok n, w')
      → (x : Event) × (get e.event_id w'.events.rows ≡ some x)
        × (reserve_of library gateways now op x w' ≡ (ok 0, w'))
  reserve_of_again op e n w w' g h =
      once_again (reserve_of library gateways now op) e (told_reserve op e) n w w' g h
        (reserve_of-IsOnce op e n w w' g h)
        (rw (is_pending-told e.last_reserve_promotion_operation_id op))

  -- The notification of a player who moved up from the reserve of an event stored under its own id:
  -- after a run that returned, the same command sends nothing and changes nothing.
  pub notify_reserve_promotion_again :
      (c : OrderedRegistrationCommand) (event_id : Option String) (e : Event) (n : ℕ)
      (w w' : State S)
      → get (or_else event_id c.event_id) w.events.rows ≡ some e
      → e.event_id ≡ or_else event_id c.event_id
      → notify_reserve_promotion library gateways now c event_id w ≡ (ok n, w')
      → notify_reserve_promotion library gateways now c event_id w' ≡ (ok 0, w')
  unfolding notify_reserve_promotion
  notify_reserve_promotion_again c event_id e n w w' g k =
      of_event_again c event_id (reserve_of library gateways now c.operation_id) e n w w' g k (
        reserve_of_again c.operation_id e n w w'
          (subst (λ i. get i w.events.rows ≡ some e) (sym k) g))
