-- ===== src/Application/Notifications/Told.antt =====
-- A command that told many players tells nobody when it is delivered again.
use rolebot_hse.Base.{
  ◌≡◌, refl, sym, ap, ◌∙◌, ℕ, true, false, Bool-cases, inl, inr, some, [], mem, nat_eq, pair_eq,
  string_eq, option_eq,
}
use rolebot_hse.Errors.{Result, ok, err, Error}
use rolebot_hse.Dict.{get, values}
use rolebot_hse.Domain.Enums.{platform_eq, operation_eq}
use rolebot_hse.Domain.Event.{Datetime, Event}
use rolebot_hse.Domain.Command.{OrderedRegistrationCommand}
use rolebot_hse.Store.Registrations.State.{list_for_event}
use rolebot_hse.Application.Mutations.Catalog.{ensure_migrated}
use rolebot_hse.Application.Effects.{◌>>=◌}
use rolebot_hse.Application.Mutations.{Services}
use rolebot_hse.Application.Notifications.{Outbox, State, Library, Gateways, user_rows, found}
use rolebot_hse.Application.Notifications.Retry.{not_returned}
use rolebot_hse.Application.Notifications.Participants.{
  Notice, users_with_keys, notify_each, notify, send_notice, recipient_keys, recipients,
  notification_operations, notice_of,
}
use rolebot_hse.Application.Notifications.Claims.{IsFresh}
use rolebot_hse.Application.Notifications.Notified.{notify_each-told_rows, notify_each-Left}

module _ {S : Type 0} (library : Library) (gateways : Gateways S) (services : Services (Outbox S))
    (now : Datetime) where
  -- Of a migrated game, the keys of those whom a notice is for.
  send_notice-migrated :
      (c : OrderedRegistrationCommand) (e : Event) (t : Datetime) (notice : Notice) (w : State S)
      → e.registrations_migrated_at ≡ some t
      → send_notice library gateways services now c e (ok notice) w
        ≡ notify_each gateways c.operation_id notice 0
            (users_with_keys gateways e.event_id
              (recipient_keys e notice.statuses notice.main_roster_only
                (list_for_event e.event_id w.registrations.rows))
              (values (user_rows w)))
            w
  unfolding recipients ensure_migrated
  send_notice-migrated c e t notice w h = rw h

  send_notice_again :
      (c : OrderedRegistrationCommand) (e : Event) (t : Datetime) (r : Result Notice) (n : ℕ)
      (w w' : State S)
      → e.registrations_migrated_at ≡ some t
      → IsFresh [] (user_rows w)
      → send_notice library gateways services now c e r w ≡ (ok n, w')
      → (send_notice library gateways services now c e r w' ≡ (ok 0, w')) × (w'.events ≡ w.events)
  send_notice_again c e t (err x) n w w' m f h = cc
  send_notice_again c e t (ok notice) n w w' m f h =
      let keys =
        recipient_keys e notice.statuses notice.main_roster_only
          (list_for_event e.event_id w.registrations.rows) in
      let left =
        notify_each-Left gateways e.event_id c.operation_id keys notice 0 n [] [] (user_rows w) w w'
          f (λ i k. refl) refl (sym (send_notice-migrated c e t notice w m) ∙ h) in
      (
        send_notice-migrated c e t notice w' m
            ∙ ap
                (λ x.
                  notify_each gateways c.operation_id notice 0
                    (users_with_keys gateways e.event_id
                      (recipient_keys e notice.statuses notice.main_roster_only
                        (list_for_event e.event_id x.rows))
                      (values (user_rows w')))
                    w')
                left.2
            ∙ ap
                (λ x.
                  notify_each gateways c.operation_id notice 0
                    (users_with_keys gateways e.event_id keys (values x)) w')
                left.0
            ∙ notify_each-told_rows gateways e.event_id c.operation_id keys notice 0 (user_rows w)
                w',
        left.1,
      )

  notify-found :
      (c : OrderedRegistrationCommand) (e : Event) (w : State S)
      → mem c.operation notification_operations ≡ true
      → get c.event_id w.events.rows ≡ some e
      → notify library gateways services now c w
        ≡ send_notice library gateways services now c e (notice_of library c e) w
  unfolding notify
  notify-found c e w m g = rw m (
      ap
        (λ o.
          (found o >>= λ event.
          send_notice library gateways services now c event (notice_of library c event))
            w)
        g)

  notify-foreign :
      (c : OrderedRegistrationCommand) (w : State S)
      → mem c.operation notification_operations ≡ false
      → notify library gateways services now c w ≡ (err Error.value_error, w)
  unfolding notify
  notify-foreign c w m = rw m

  -- A notification of many players that returned, in a game whose registrations are migrated: when it
  -- is delivered again nobody is sent anything, and nothing changes, if each user is stored once,
  -- under the own identity.
  pub notify_again :
      (c : OrderedRegistrationCommand) (e : Event) (t : Datetime) (n : ℕ) (w w' : State S)
      → get c.event_id w.events.rows ≡ some e
      → e.registrations_migrated_at ≡ some t
      → IsFresh [] (user_rows w)
      → notify library gateways services now c w ≡ (ok n, w')
      → notify library gateways services now c w' ≡ (ok 0, w')
  notify_again c e t n w w' g m f h = elim (Bool-cases (mem c.operation notification_operations)) [
    | inl own ↦
        let (again, events) =
          send_notice_again c e t (notice_of library c e) n w w' m f
            (sym (notify-found c e w own g) ∙ h) in
        notify-found c e w' own (ap (λ x. get c.event_id x.rows) events ∙ g) ∙ again
    | inr other ↦ absurd (not_returned n w w' _ (notify-foreign c w other) h)
  ]
