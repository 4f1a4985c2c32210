-- ===== src/Application/Notifications/Confirmed.antt =====
-- The bundle of a confirming player is sent once.
use rolebot_hse.Base.{
  ◌≡◌, refl, sym, ap, ◌∙◌, inl, inr, ℕ, String, Bool, true, false, Bool-cases, Option, none, some,
  List, length, nat_eq, pair_eq, string_eq, option_eq, beq_refl, ◌==◌, if◌then◌else◌,
}
use rolebot_hse.Base.Text.{◌&◌}
use rolebot_hse.Errors.{ok}
use rolebot_hse.Dict.{get, adjust, get-adjust}
use rolebot_hse.Domain.Enums.{platform_eq, Operation, operation_eq}
use rolebot_hse.Domain.Event.{Event}
use rolebot_hse.Domain.User.{Identity, Button, User, with_base}
use rolebot_hse.Domain.Command.{OrderedRegistrationCommand}
use rolebot_hse.Store.Registrations.State.{list_for_event}
use rolebot_hse.Store.Users.{claim_delivery}
use rolebot_hse.Application.Effects.{Effect, ◌>>=◌, ◌>>◌, pure, continue-ok}
use rolebot_hse.Application.Support.{Sending}
use rolebot_hse.Application.Mutations.{UserRows}
use rolebot_hse.Application.Notifications.{
  Letter, State, Library, Gateways, rows_in, was_told, user_rows, claim, required_event, tried,
  found, deliver, deliver_all,
}
use rolebot_hse.Application.Notifications.Progress.{deliver_all-IsApart}
use rolebot_hse.Application.Notifications.Retry.{not_returned}
use rolebot_hse.Application.Notifications.Participants.{
  author, user_was_told, menu_if, letters_for, send_past, after_reply, reply_to,
  notify_confirming_participant,
}

marked_user :
    (request_id : String) (buttons : List Button) (user : User)
    → was_told request_id (
        with_base
          (λ u. record u {
            last_delivery_operation_id = some request_id;
            last_bot_buttons = buttons;
          })
          user)
      ≡ true
marked_user request_id buttons (User.telegram t) = beq_refl request_id
marked_user request_id buttons (User.vk v) = beq_refl request_id

claimed_user :
    (identity : Identity) (user : User) (request_id : String) (buttons : List Button)
    (rows : UserRows)
    → get identity rows ≡ some user
    → user_was_told request_id (
        get identity (
          adjust identity
            (with_base (λ u. record u {
              last_delivery_operation_id = some request_id;
              last_bot_buttons = buttons;
            }))
            rows))
      ≡ true
claimed_user identity user request_id buttons rows g =
    rw
      (
        get-adjust identity identity
            (with_base (λ u. record u {
              last_delivery_operation_id = some request_id;
              last_bot_buttons = buttons;
            }))
            rows,
        beq_refl identity,
        g,
      )
      (marked_user request_id buttons user)

-- A known user has the marker of a claim.
was_told-claim_delivery :
    (identity : Identity) (request_id : String) (buttons : List Button) (rows : UserRows)
    (user : User)
    → get identity rows ≡ some user
    → user_was_told request_id (get identity (claim_delivery identity request_id buttons rows).0)
      ≡ true
unfolding claim_delivery
was_told-claim_delivery identity request_id buttons rows user g =
    elim (Bool-cases (was_told request_id user)) [
      | inl old ↦ rw g (rw old (rw g old))
      | inr new ↦ rw g (rw new (claimed_user identity user request_id buttons rows g))
    ]

module _ {S : Type 0} (library : Library) (gateways : Gateways S) where
  -- What a run behind the first letter leaves: the marker of the whole bundle.
  Claimed : OrderedRegistrationCommand → State S → State S → Type 0
  Claimed c w w' =
      (buttons : List Button) × (user_rows w'
        ≡ (claim_delivery (author c) c.operation_id buttons (user_rows w)).0)

  send_past-Claimed :
      (c : OrderedRegistrationCommand) (buttons : List Button) (letters : List Letter) (n : ℕ)
      (w w' : State S)
      → send_past library gateways c buttons letters w ≡ (ok n, w')
      → Claimed c w w'
  unfolding Claimed
  send_past-Claimed c buttons letters n w w' h =
      let (x, s, p, q) =
        continue-ok
          (λ _. claim (author c) c.operation_id (menu_if letters buttons) >> pure (length letters))
          (deliver_all gateways none letters w) n w' h in
      (
        menu_if letters buttons,
        ap (λ y. user_rows y.1) (sym q)
            ∙ ap
                (λ users.
                  (claim_delivery (author c) c.operation_id (menu_if letters buttons)
                    (rows_in users)).0)
                (ap (λ y. y.1.users) (sym p) ∙ (deliver_all-IsApart gateways none letters w).2),
      )

  after_reply-Claimed :
      (c : OrderedRegistrationCommand) (buttons : List Button) (e : Event) (reached : Bool) (n : ℕ)
      (w w' : State S)
      → after_reply library gateways c buttons e reached w ≡ (ok n, w')
      → Claimed c w w'
  unfolding Claimed
  after_reply-Claimed c buttons e false n w w' h = (buttons, ap (λ x. user_rows x.1) (sym h))
  after_reply-Claimed c buttons e true n w w' h =
      send_past-Claimed c buttons
        (letters_for library gateways c e (list_for_event e.event_id w.registrations.rows)) n w w' h

  reply_to-Claimed :
      (c : OrderedRegistrationCommand) (text : String) (buttons : List Button) (e : Event) (n : ℕ)
      (w w' : State S)
      → reply_to library gateways c text buttons e w ≡ (ok n, w')
      → Claimed c w w'
  unfolding Claimed deliver
  reply_to-Claimed c text buttons e n w w' h =
      by_sending (gateways.transport w.rest.attempts letter) refl h
    where
      letter : Letter
      letter = record {
        to = author c;
        request_id = c.operation_id & ":confirmation-result";
        text = text;
        buttons = buttons;
      }

      by_sending :
          (sending : Sending)
          → gateways.transport w.rest.attempts letter ≡ sending
          → (deliver gateways letter >>= after_reply library gateways c buttons e) w ≡ (ok n, w')
          → Claimed c w w'
      by_sending Sending.delivered k run =
          after_reply-Claimed c buttons e true n (tried letter Sending.delivered w) w' (rw k at run)
      by_sending Sending.unreachable k run =
          after_reply-Claimed c buttons e false n (tried letter Sending.unreachable w) w'
            (rw k at run)
      by_sending Sending.failed k run = cc (rw k at run)

  -- A confirmation of a known player whose bundle was sent, whether or not it arrived: when it is
  -- delivered again nothing is sent and nothing changes.
  pub notify_confirming_participant_again :
      (c : OrderedRegistrationCommand) (text : String) (buttons : List Button) (user : User) (n : ℕ)
      (w w' : State S)
      → get (author c) (user_rows w) ≡ some user
      → notify_confirming_participant library gateways c text buttons w ≡ (ok n, w')
      → notify_confirming_participant library gateways c text buttons w' ≡ (ok 0, w')
  unfolding notify_confirming_participant Claimed
  notify_confirming_participant_again c text buttons user n w w' g h =
      elim (Bool-cases (c.operation == Operation.confirm)) [
        | inl own ↦ rw own (
            by_told (user_was_told c.operation_id (get (author c) (user_rows w))) refl
              (rw own at h))
        | inr other ↦ absurd (not_returned n w w' _ refl (rw other at h))
      ]
    where
      start : Event → Effect (State S) ℕ
      start e = reply_to library gateways c text buttons e

      told_after :
          Claimed c w w'
          → (if user_was_told c.operation_id (get (author c) (user_rows w'))
                then pure 0
                else required_event c.event_id >>= start)
              w'
            ≡ (ok 0, w')
      told_after (bs, rows) = rw (
          ap (λ r. user_was_told c.operation_id (get (author c) r)) rows
          ∙ was_told-claim_delivery (author c) c.operation_id bs (user_rows w) user g)

      by_event : (o : Option Event) → (found o >>= start) w ≡ (ok n, w') → Claimed c w w'
      by_event none k = cc
      by_event (some e) k = reply_to-Claimed c text buttons e n w w' k

      by_told :
          (told : Bool)
          → user_was_told c.operation_id (get (author c) (user_rows w)) ≡ told
          → (if told then pure 0 else required_event c.event_id >>= start) w ≡ (ok n, w')
          → (if user_was_told c.operation_id (get (author c) (user_rows w'))
                then pure 0
                else required_event c.event_id >>= start)
              w'
            ≡ (ok 0, w')
      by_told true t k =
          let same : w ≡ w' = ap (λ x. x.1) k in
          rw (ap (λ v. user_was_told c.operation_id (get (author c) (user_rows v))) (sym same) ∙ t)
      by_told false t k = told_after (by_event (get c.event_id w.events.rows) k)
