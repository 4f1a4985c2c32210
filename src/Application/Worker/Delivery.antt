-- ===== src/Application/Worker/Delivery.antt =====
-- One command in the worker: its reply, and what a refusal and a failure come to.
use rolebot_hse.Base.{
  String, ◌≡◌, refl, ap, ◌∙◌, ◌++◌, arith, option_beq_iff, Bool, true, false, not, ◌||◌, some, List,
  [], ◌∷◌, ◌==◌, string_eq, nat_eq, option_eq, pair_eq, beq_refl, mem, Bool-cases, inl, inr, ◌≢◌,
}
use rolebot_hse.Base.Text.{◌&◌}
use rolebot_hse.Errors.{Result, ok, err, Error}
use rolebot_hse.Dict.{get, get-adjust}
use rolebot_hse.Domain.Enums.{Platform, platform_eq, Operation, operation_eq}
use rolebot_hse.Domain.User.{Button, User, base_of}
use rolebot_hse.Domain.Command.{OrderedRegistrationCommand}
use rolebot_hse.Store.Users.{claim_delivery}
use rolebot_hse.Store.Users.Roles.{base_of-with_base}
use rolebot_hse.Application.Effects.{◌>>◌, continue}
use rolebot_hse.Application.Support.{Sending}
use rolebot_hse.Application.Worker.{QueueEnvelope, World, Message, Services, Frame}
use rolebot_hse.Application.Worker.Reply.{recipient_of, deliver_once, was_delivered, in_frame, call}
use rolebot_hse.Application.Worker.Handle.{
  handle, respond, settle, text_or, first_frame, recover, leave,
}
use rolebot_hse.Application.Worker.Dispatch.{dispatch}

-- The operations that `OrderedMutationService.apply` carries out, less the profile projection.
abbrev pub is_mutation : Operation → Bool
is_mutation op = not (
    mem op (
      Operation.sync_profile ∷ Operation.refresh_daily_pass_table ∷ Operation.refresh_event_tables
      ∷ Operation.statistics ∷ Operation.scheduled_close_event
      ∷ Operation.scheduled_close_statistics ∷ Operation.scheduled_close_finalize
      ∷ Operation.update_profile ∷ []))

mutation-enabled :
    (op : Operation)
    → is_mutation op ≡ true
    → not (mem op (Operation.sync_profile ∷ Operation.update_profile ∷ [])) ≡ true
mutation-enabled Operation.sync_profile h = h
mutation-enabled Operation.update_profile h = h
mutation-enabled _ h = refl

module _ {S : Type 0} (services : Services S) where
  abbrev pub reply : OrderedRegistrationCommand → String → List Button → Message
  reply c text buttons = record {
    recipient = recipient_of c;
    request_id = c.operation_id;
    text = text;
    buttons = buttons;
  }

  was_delivered-claim :
      (c : OrderedRegistrationCommand) (buttons : List Button) (w : World S) (u : User)
      → get (recipient_of c) w.users ≡ some u
      → was_delivered services c.operation_id
          (get (recipient_of c) (claim_delivery (recipient_of c) c.operation_id buttons w.users).0)
        ≡ true
  unfolding claim_delivery
  was_delivered-claim c buttons w u g =
      elim (Bool-cases ((base_of u).last_delivery_operation_id == some c.operation_id)) [
        | inl e ↦ rw (g, e) (rw (g, e) refl)
        | inr e ↦
            rw (g, e)
              (rw (get-adjust (recipient_of c) (recipient_of c) _ w.users) (
                rw (beq_refl ⦃e = pair_eq⦄ (recipient_of c), g)
                  (rw (base_of-with_base _ u) (rw (beq_refl c.operation_id) refl))))
      ]

  -- A reply that the transport accepted, to a known user: a second reply to the same command, as a
  -- repeated run gives it, is not sent, and changes nothing.
  pub deliver_once_again :
      (c : OrderedRegistrationCommand) (text text' : String) (buttons buttons' : List Button)
      (w : World S) (u : User)
      → get (recipient_of c) w.users ≡ some u
      → services.send (reply c text buttons) w ≡ Sending.delivered
      → deliver_once services c text' buttons' (deliver_once services c text buttons w).1
        ≡ (ok tt, (deliver_once services c text buttons w).1)
  unfolding deliver_once
  deliver_once_again c text text' buttons buttons' w u g s =
      elim (Bool-cases (c.platform == Platform.system || c.platform_user_id == 0)) [
        | inl n ↦ rw n refl
        | inr n ↦
            elim (Bool-cases
              (was_delivered services c.operation_id (get (recipient_of c) w.users))) [
                | inl d ↦ rw (n, d) (rw d refl)
                | inr d ↦ rw (n, d, s) (rw (was_delivered-claim c buttons w u g) refl)
              ]
      ]

  dispatch-mutation :
      (c : OrderedRegistrationCommand) (op : Operation)
      → is_mutation op ≡ true
      → (f : Frame S) → dispatch services c op f ≡ dispatch services c Operation.cancel f
  unfolding dispatch
  dispatch-mutation c Operation.sync_profile h f = cc
  dispatch-mutation c Operation.refresh_daily_pass_table h f = cc
  dispatch-mutation c Operation.refresh_event_tables h f = cc
  dispatch-mutation c Operation.statistics h f = cc
  dispatch-mutation c Operation.scheduled_close_event h f = cc
  dispatch-mutation c Operation.scheduled_close_statistics h f = cc
  dispatch-mutation c Operation.scheduled_close_finalize h f = cc
  dispatch-mutation c _ h f = refl

  -- What a mutation that raised leaves of the inner `try`.
  respond-raised :
      (c : OrderedRegistrationCommand) (w w' : World S) (e : Error)
      → is_mutation c.operation ≡ true
      → services.mutations.apply c w ≡ (err e, w')
      → respond services c (first_frame services c w)
        ≡ (err e, record (first_frame services c w) { world = w' })
  unfolding respond dispatch
  respond-raised c w w' e m h =
      rw (dispatch-mutation c c.operation m (first_frame services c w), h) refl

  recover-raised :
      (raw : QueueEnvelope) (e : Error) (f : Frame S)
      → e ≢ Error.domain_error
      → recover services raw (err e, f) ≡ (err e, f)
  recover-raised raw Error.domain_error f n = absurd (n refl)
  recover-raised raw _ f n = refl

  leave-delete :
      (receipt : String) (f : Frame S) (r : Result (Unit {0}) × World S)
      → leave services
          (continue (λ _. call services (services.delete receipt)) (in_frame services f r))
        ≡ continue (λ _. services.delete receipt) r
  leave-delete receipt f (ok _, w) = refl
  leave-delete receipt f (err e, w) = refl

  leave-settle :
      (raw : QueueEnvelope) (w : World S) (text : String) (buttons : List Button) (enabled : Bool)
      → enabled ≡ true
      → leave services (
          settle services raw (record {
            world = w;
            text = text;
            enabled = enabled;
            delivered = false;
            buttons = buttons;
          }))
        ≡ (deliver_once services raw.command text buttons >> services.delete raw.receipt_handle) w
  unfolding settle
  leave-settle raw w text buttons true e =
      leave-delete raw.receipt_handle
        (record { world = w; text = text; enabled = true; delivered = false; buttons = buttons })
        (deliver_once services raw.command text buttons w)
  leave-settle raw w text buttons false e = cc

  handle-settled :
      (raw : QueueEnvelope) (w w' : World S)
      → is_mutation raw.command.operation ≡ true
      → services.mutations.apply raw.command w ≡ (err Error.domain_error, w')
      → handle services raw w
        ≡ (deliver_once services raw.command
                (text_or raw.command.reply_context.text_failure
                  ("❌ " & services.domain_text raw.command w'))
                raw.command.reply_context.buttons
              >> services.delete raw.receipt_handle)
            w'
  unfolding handle
  handle-settled raw w w' m h = rw (respond-raised raw.command w w' Error.domain_error m h) (
      leave-settle raw w'
        (text_or raw.command.reply_context.text_failure
          ("❌ " & services.domain_text raw.command w'))
        raw.command.reply_context.buttons
        (not (mem raw.command.operation (Operation.sync_profile ∷ Operation.update_profile ∷ [])))
        (mutation-enabled raw.command.operation m))

  -- The refusal, as its author gets it, and the state after it was accepted.
  abbrev pub refusal : OrderedRegistrationCommand → World S → Message
  refusal c w =
      reply c (text_or c.reply_context.text_failure ("❌ " & services.domain_text c w))
        c.reply_context.buttons

  abbrev pub answered : OrderedRegistrationCommand → World S → World S
  answered c w = record w {
    users = (claim_delivery (recipient_of c) c.operation_id c.reply_context.buttons w.users).0;
    sent = w.sent ++ refusal c w ∷ [];
  }

  refusal_once :
      (c : OrderedRegistrationCommand) (w : World S) (u : User)
      → (c.platform == Platform.system || c.platform_user_id == 0) ≡ false
      → get (recipient_of c) w.users ≡ some u
      → (base_of u).last_delivery_operation_id ≢ some c.operation_id
      → services.send (refusal c w) w ≡ Sending.delivered
      → deliver_once services c (refusal c w).text c.reply_context.buttons w ≡ (ok tt, answered c w)
  unfolding deliver_once
  refusal_once c w u p g n s =
      let new : ((base_of u).last_delivery_operation_id == some c.operation_id) ≡ false = ground (
        arith,
        n,
        option_beq_iff ⦃e = string_eq⦄ (base_of u).last_delivery_operation_id (some c.operation_id),
      ) in
      rw (p, g, new, s) refl

  refusal_never_again :
      (c : OrderedRegistrationCommand) (w y : World S) (u : User) (text : String)
      (buttons : List Button)
      → get (recipient_of c) w.users ≡ some u
      → y.users ≡ (answered c w).users
      → deliver_once services c text buttons y ≡ (ok tt, y)
  unfolding deliver_once
  refusal_never_again c w y u text buttons g k =
      let told : was_delivered services c.operation_id (get (recipient_of c) y.users) ≡ true =
        ap (λ users. was_delivered services c.operation_id (get (recipient_of c) users)) k
        ∙ was_delivered-claim c c.reply_context.buttons w u g in
      elim (Bool-cases (c.platform == Platform.system || c.platform_user_id == 0)) [
        | inl p ↦ rw p refl
        | inr p ↦ rw (p, told) refl
      ]

  -- A mutation, other than the projection of a profile, that a business rule refuses, of a known user
  -- who was not told yet and whose message the transport accepts: its author is sent the refusal,
  -- that is recorded, and then the receipt is deleted. If the command comes back and is refused again,
  -- with the users as they were before that deletion, nothing is sent and nothing recorded, and only
  -- the deletion of the receipt is tried again.
  pub handle-refused :
      (raw : QueueEnvelope) (w w' x y : World S) (u : User)
      → is_mutation raw.command.operation ≡ true
      → (raw.command.platform == Platform.system || raw.command.platform_user_id == 0) ≡ false
      → services.mutations.apply raw.command w ≡ (err Error.domain_error, w')
      → get (recipient_of raw.command) w'.users ≡ some u
      → (base_of u).last_delivery_operation_id ≢ some raw.command.operation_id
      → services.send (refusal raw.command w') w' ≡ Sending.delivered
      → services.mutations.apply raw.command x ≡ (err Error.domain_error, y)
      → y.users ≡ (answered raw.command w').users
      → (handle services raw w ≡ services.delete raw.receipt_handle (answered raw.command w'))
        × (handle services raw x ≡ services.delete raw.receipt_handle y)
  handle-refused raw w w' x y u m p h g n s h' k =
      let c = raw.command in
      (
        handle-settled raw w w' m h
            ∙ ap (continue (λ _. services.delete raw.receipt_handle)) (refusal_once c w' u p g n s),
        handle-settled raw x y m h'
            ∙ ap (continue (λ _. services.delete raw.receipt_handle))
                (refusal_never_again c w' y u (refusal c y).text c.reply_context.buttons g k),
      )

  -- A mutation that fails in any other way: the failure goes to the loop, and the state is what the
  -- mutation left, with nothing sent and the receipt not deleted.
  handle-raised :
      (raw : QueueEnvelope) (w w' : World S) (e : Error)
      → is_mutation raw.command.operation ≡ true
      → services.mutations.apply raw.command w ≡ (err e, w')
      → e ≢ Error.domain_error
      → handle services raw w ≡ (err e, w')
  unfolding handle
  handle-raised raw w w' e m h n =
      rw
        (
          respond-raised raw.command w w' e m h,
          recover-raised raw e (record (first_frame services raw.command w) { world = w' }) n,
        )
        refl
