-- ===== src/Application/Notifications/Linked.antt =====
-- The links of the chats are sent once to a confirmed player who moved up.
use mathlib.Core.Path.{subst}
use rolebot_hse.Base.{
  ◌≡◌, refl, sym, ap, ◌∙◌, inl, inr, ℕ, String, Bool, Bool-cases, Option, none, some, length,
  or_else, string_eq, option_eq, nat_eq, pair_eq, if◌then◌else◌,
}
use rolebot_hse.Base.Text.{◌&◌}
use rolebot_hse.Errors.{ok}
use rolebot_hse.Dict.{get}
use rolebot_hse.Domain.Enums.{platform_eq, operation_eq}
use rolebot_hse.Domain.Event.{Datetime, Event}
use rolebot_hse.Domain.User.{User, local_identity}
use rolebot_hse.Domain.Command.{OrderedRegistrationCommand}
use rolebot_hse.Store.Events.Delivery.{mark_confirmed_link_promotion_delivered}
use rolebot_hse.Application.Effects.{Effect, ◌>>◌, pure, continue, continue-ok, if_present}
use rolebot_hse.Application.Mutations.{change_events}
use rolebot_hse.Application.Notifications.{State, Library, Gateways, claim, deliver_all}
use rolebot_hse.Application.Notifications.Progress.{deliver_all-IsApart}
use rolebot_hse.Application.Notifications.Snapshot.{numbered}
use rolebot_hse.Application.Notifications.Texts.{main_menu, link_texts}
use rolebot_hse.Application.Notifications.Promotions.{
  promoted_user, is_pending, tell_link, link_of, notify_confirmed_link_promotion,
}
use rolebot_hse.Application.Notifications.Once.{
  event_after, of_event_again, returned_zero, is_pending-told, once_again, IsOnce,
}

module _ {S : Type 0} (library : Library) (gateways : Gateways S) (now : Datetime) where
  -- The event after `mark_confirmed_link_promotion_delivered`.
  abbrev told_link : String → Event → Event
  told_link op e = record e {
    last_confirmed_link_promotion_delivered_operation_id = some op;
    updated_at = now;
  }

  -- What is done behind the links.
  abbrev after_links : String → Event → User → ℕ → Bool × Option String → Effect (State S) ℕ
  after_links op e user count (reached, last) =
      change_events (mark_confirmed_link_promotion_delivered now e.event_id op)
      >> if_present last (λ request_id. claim (local_identity user) request_id main_menu)
      >> pure (if reached then count else 0)

  after_links-told :
      (op : String) (e : Event) (user : User) (count : ℕ) (x : Bool × Option String) (n : ℕ)
      (s w' : State S)
      → get e.event_id s.events.rows ≡ some e
      → after_links op e user count x s ≡ (ok n, w')
      → get e.event_id w'.events.rows ≡ some (told_link op e)
  unfolding mark_confirmed_link_promotion_delivered
  after_links-told op e user count (reached, none) n s w' =
      event_after e.event_id (told_link op) e n s w'
        (λ x. continue (λ _. pure (if reached then count else 0)) (continue (λ _. pure tt) x))
        (λ v. refl)
  after_links-told op e user count (reached, some last) n s w' =
      event_after e.event_id (told_link op) e n s w'
        (λ x.
          continue (λ _. pure (if reached then count else 0))
            (continue (λ _. claim (local_identity user) last main_menu) x))
        (λ v. refl)

  tell_link-IsOnce :
      (op : String) (e : Event) (o : Option User) (n : ℕ) (w w' : State S)
      → get e.event_id w.events.rows ≡ some e
      → tell_link library gateways now e op o w ≡ (ok n, w')
      → IsOnce e (told_link op e) n w w'
  tell_link-IsOnce op e none n w w' g h = inl (returned_zero n w w' h)
  tell_link-IsOnce op e (some user) n w w' g h =
      let texts = link_texts library e in
      let letters = numbered (local_identity user) (op & ":confirmed-link-promotion") 0 texts in
      let (x, s, p, q) =
        continue-ok (after_links op e user (length texts)) (deliver_all gateways none letters w) n
          w' h in
      let events = (deliver_all-IsApart gateways none letters w).0 in
      inr (
        after_links-told op e user (length texts) x n s w'
          (ap (λ y. get e.event_id y.1.events.rows) (sym p)
            ∙ ap (λ y. get e.event_id y.rows) events
            ∙ g)
          q)

  link_of-IsOnce :
      (op : String) (e : Event) (n : ℕ) (w w' : State S)
      → get e.event_id w.events.rows ≡ some e
      → link_of library gateways now op e w ≡ (ok n, w')
      → IsOnce e (told_link op e) n w w'
  link_of-IsOnce op e n w w' g h =
      elim (Bool-cases (
        is_pending e.last_confirmed_link_promotion_operation_id
          e.last_confirmed_link_promotion_delivered_operation_id op)) [
            | inl pending ↦
                tell_link-IsOnce op e
                  (promoted_user library gateways now e
                    e.last_confirmed_link_promotion_participant_key w)
                  n w w' g (rw pending at h)
            | inr settled ↦ inl (returned_zero n w w' (rw settled at h))
          ]

  link_of_again :
      (op : String) (e : Event) (n : ℕ) (w w' : State S)
      → get e.event_id w.events.rows ≡ some e
      → link_of library gateways now op e w ≡ (ok n, w')
      → (x : Event) × (get e.event_id w'.events.rows ≡ some x)
        × (link_of library gateways now op x w' ≡ (ok 0, w'))
  link_of_again op e n w w' g h =
      once_again (link_of library gateways now op) e (told_link op e) n w w' g h
        (link_of-IsOnce op e n w w' g h)
        (rw (is_pending-told e.last_confirmed_link_promotion_operation_id op))

  -- The links of the chats for a confirmed player who moved up: after a run that returned, the same
  -- command sends nothing and changes nothing.
  notify_confirmed_link_promotion_again :
      (c : OrderedRegistrationCommand) (event_id : Option String) (e : Event) (n : ℕ)
      (w w' : State S)
      → get (or_else event_id c.event_id) w.events.rows ≡ some e
      → e.event_id ≡ or_else event_id c.event_id
      → notify_confirmed_link_promotion library gateways now c event_id w ≡ (ok n, w')
      → notify_confirmed_link_promotion library gateways now c event_id w' ≡ (ok 0, w')
  unfolding notify_confirmed_link_promotion
  notify_confirmed_link_promotion_again c event_id e n w w' g k =
      of_event_again c event_id (link_of library gateways now c.operation_id) e n w w' g k (
        link_of_again c.operation_id e n w w' (subst (λ i. get i w.events.rows ≡ some e) (sym k) g))
