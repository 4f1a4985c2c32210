-- ===== src/Application/Worker/Handle.antt =====
-- One command in `OrderedWorker._drain`: its text, its notifications, its reply and its receipt.
use rolebot_hse.Base.{
  String, true, false, not, ◌&&◌, ◌||◌, Option, none, some, List, [], ◌∷◌, ◌==◌, string_eq, nat_eq,
  option_eq, pair_eq, mem, is_some, if◌then◌else◌,
}
use rolebot_hse.Base.Text.{◌&◌}
use rolebot_hse.Base.Int.{int_eq}
use rolebot_hse.Errors.{Result, ok, err, Error}
use rolebot_hse.Domain.Enums.{platform_eq, Operation, operation_eq}
use rolebot_hse.Domain.Command.{OrderedRegistrationCommand}
use rolebot_hse.Application.Effects.{Effect, ◌>>=◌, ◌>>◌, pure, when, configured, if_present}
use rolebot_hse.Application.Worker.{QueueEnvelope, World, Notifications, Services, Frame}
use rolebot_hse.Application.Worker.Reply.{deliver_once, call, set_delivered}
use rolebot_hse.Application.Worker.Dispatch.{dispatch}

-- Texts: `a or b`.
abbrev pub text_or : String → String → String
text_or a b = if a == "" then b else a

abbrev pub notification_operations : List Operation
notification_operations =
    Operation.open_confirmation ∷ Operation.scheduled_open_confirmation
    ∷ Operation.send_confirmation_reminder ∷ Operation.send_confirmed_notification
    ∷ Operation.send_all_players_notification ∷ []

abbrev pub status_requests : List Operation
status_requests =
    Operation.open_registration ∷ Operation.open_confirmation ∷ Operation.close_event ∷ []

abbrev pub withdrawals : List Operation
withdrawals =
    Operation.cancel ∷ Operation.update_answer ∷ Operation.remove_participant
    ∷ Operation.remove_waiting_participants ∷ Operation.promote_reserve_participant ∷ []

module _ {S : Type 0} (services : Services S) where
  abbrev pub set_text : OrderedRegistrationCommand → String → Effect (Frame S) (Unit {0})
  set_text c default_text f = (
    ok tt,
    record f {
      text =
          if mem c.operation (Operation.enlist ∷ Operation.confirm ∷ [])
          then default_text
          else text_or c.reply_context.text_success default_text;
    },
  )

  -- What follows a confirmation that replaced one in another game.
  abbrev pub notify_replaced :
      Notifications S → OrderedRegistrationCommand → Option String → Effect (Frame S) (Unit {0})
  notify_replaced n c none = pure tt
  notify_replaced n c (some event_id) =
      call services (n.kick_cancelled_participant c (some event_id) true)
      >> call services (n.notify_reserve_promotion c (some event_id))
      >> call services (n.notify_confirmed_link_promotion c (some event_id))
      >> call services (n.notify_masters_of_replaced_participation c event_id)

  abbrev pub notify_confirmed :
      Notifications S → OrderedRegistrationCommand → Option String → Effect (Frame S) (Unit {0})
  notify_confirmed n c replaced f =
      (call services (n.notify_confirming_participant c f.text c.reply_context.buttons)
          >> notify_replaced n c replaced
          >> set_delivered services)
        f

  abbrev pub notify_withdrawn :
      OrderedRegistrationCommand → Notifications S → Effect (Frame S) (Unit {0})
  notify_withdrawn c n =
      when (c.operation == Operation.remove_participant)
        (call services (n.notify_removed_participants c))
      >> when
          (mem c.operation
            (Operation.remove_waiting_participants ∷ Operation.promote_reserve_participant ∷ []))
          (call services (n.notify_sifted_participants c))
      >> when
          (mem c.operation
            (Operation.cancel ∷ Operation.remove_participant ∷ Operation.update_answer ∷ []))
          (call services (n.notify_reserve_promotion c none)
            >> call services (n.notify_confirmed_link_promotion c none))
      >> when (c.operation == Operation.cancel) (
          call services (n.kick_cancelled_participant c none false)
          >> call services (n.notify_masters_of_cancellation c))

  -- The chain of branches after the text was chosen.
  unfoldable pub notify_others :
      OrderedRegistrationCommand → Option String → Effect (Frame S) (Unit {0})
  notify_others c replaced f =
      if f.enabled && mem c.operation notification_operations
      then configured services.notifications (λ (n : Notifications S). call services (n.notify c)) f
      else if f.enabled && (c.operation == Operation.confirm && is_some services.notifications)
      then if_present services.notifications
          (λ (n : Notifications S). notify_confirmed n c replaced) f
      else if f.enabled && mem c.operation withdrawals
      then if_present services.notifications (notify_withdrawn c) f
      else if f.enabled && c.operation == Operation.update_player_amount
      then if_present services.notifications
          (λ (n : Notifications S). call services (n.notify_capacity_promotions c)) f
      else (ok tt, f)

  -- The reply to a signup or a confirmation, and then the message to the masters.
  unfoldable pub notify_masters : OrderedRegistrationCommand → Effect (Frame S) (Unit {0})
  unfolding deliver_once
  notify_masters c f =
      if f.enabled && mem c.operation (Operation.enlist ∷ Operation.confirm ∷ [])
      then if_present services.notifications
          (λ (n : Notifications S).
            when (not f.delivered)
              (call services (deliver_once services c f.text f.buttons) >> set_delivered services)
            >> call services (n.notify_masters_of_participation c))
          f
      else (ok tt, f)

  -- The inner `try`.
  unfoldable pub respond : OrderedRegistrationCommand → Effect (Frame S) (Unit {0})
  unfolding dispatch notify_others notify_masters
  respond c = dispatch services c c.operation >>= λ (default_text, replaced).
      set_text c default_text >> notify_others c replaced >> notify_masters c

  -- What follows the inner `try`: the reply, if there is still one to send, and the receipt.
  unfoldable pub settle : QueueEnvelope → Effect (Frame S) (Unit {0})
  unfolding deliver_once
  settle raw f =
      let c = raw.command in
      (when ((f.enabled || mem c.operation status_requests) && not f.delivered)
            (call services (deliver_once services c f.text f.buttons))
          >> call services (services.delete raw.receipt_handle))
        f

  -- The `except DomainError`: any other exception is left to the loop.
  abbrev pub recover : QueueEnvelope → Result (Unit {0}) × Frame S → Result (Unit {0}) × Frame S
  recover raw (ok _, f) = settle raw f
  recover raw (err Error.domain_error, f) = settle raw (record f {
    text =
        text_or raw.command.reply_context.text_failure
          ("❌ " & services.domain_text raw.command f.world);
  })
  recover raw (err e, f) = (err e, f)

  abbrev pub first_frame : OrderedRegistrationCommand → World S → Frame S
  first_frame c w = record {
    world = w;
    text = "";
    enabled = not (mem c.operation (Operation.sync_profile ∷ Operation.update_profile ∷ []));
    delivered = false;
    buttons = c.reply_context.buttons;
  }

  abbrev pub leave : Result (Unit {0}) × Frame S → Result (Unit {0}) × World S
  leave (r, f) = (r, f.world)

  -- The outer `try`: one command, its reply and its receipt.
  unfoldable pub handle : QueueEnvelope → Effect (World S) (Unit {0})
  unfolding respond settle
  handle raw w = leave (recover raw (respond raw.command (first_frame raw.command w)))
