-- ===== src/Application/Worker/Reply.antt =====
-- Replies of `OrderedWorker`, each sent once, and the steps in the frame of its loop.
use rolebot_hse.Base.{
  String, Bool, true, false, ◌||◌, Option, none, some, List, [], ◌∷◌, ◌++◌, ◌==◌, string_eq, nat_eq,
  option_eq, pair_eq, if◌then◌else◌,
}
use rolebot_hse.Base.Int.{int_eq}
use rolebot_hse.Errors.{Result, ok, err, Error}
use rolebot_hse.Dict.{get}
use rolebot_hse.Domain.Enums.{Platform, platform_eq, operation_eq}
use rolebot_hse.Domain.User.{Button, Identity, User, base_of}
use rolebot_hse.Domain.Command.{OrderedRegistrationCommand}
use rolebot_hse.Store.Users.{claim_delivery}
use rolebot_hse.Application.Effects.{Effect}
use rolebot_hse.Application.Support.{Sending}
use rolebot_hse.Application.Worker.{Message, World, Services, Frame}

abbrev pub recipient_of : OrderedRegistrationCommand → Identity
recipient_of c = (c.platform, c.platform_user_id)

module _ {S : Type 0} (services : Services S) where
  abbrev pub send_message :
      OrderedRegistrationCommand → Message → Sending → Effect (World S) (Unit {0})
  send_message c m Sending.delivered w = (
    ok tt,
    record w {
      users = (claim_delivery (recipient_of c) c.operation_id m.buttons w.users).0;
      sent = w.sent ++ m ∷ [];
    },
  )
  send_message c m Sending.unreachable w = (ok tt, w)
  send_message c m Sending.failed w = (err Error.runtime_error, w)

  -- `user is not None and user.last_delivery_operation_id == command.operation_id`
  abbrev pub was_delivered : String → Option User → Bool
  was_delivered operation_id none = false
  was_delivered operation_id (some user) =
      (base_of user).last_delivery_operation_id == some operation_id

  -- `_deliver_once`
  unfoldable pub deliver_once :
      OrderedRegistrationCommand → String → List Button → Effect (World S) (Unit {0})
  deliver_once c text buttons w =
      let m : Message = record {
        recipient = recipient_of c;
        request_id = c.operation_id;
        text = text;
        buttons = buttons;
      } in
      if c.platform == Platform.system || c.platform_user_id == 0
      then (ok tt, w)
      else if was_delivered c.operation_id (get (recipient_of c) w.users)
      then (ok tt, w)
      else send_message c m (services.send m w) w

  -- A call of a service in the frame of the loop.
  abbrev pub in_frame : {A : Type 0} → Frame S → Result A × World S → Result A × Frame S
  in_frame f (r, w) = (r, record f { world = w })

  abbrev pub call : {A : Type 0} → Effect (World S) A → Effect (Frame S) A
  call m f = in_frame f (m f.world)

  abbrev pub set_enabled : Bool → Effect (Frame S) (Unit {0})
  set_enabled enabled f = (ok tt, record f { enabled = enabled })

  abbrev pub set_buttons : Option (List Button) → Effect (Frame S) (Unit {0})
  set_buttons none f = (ok tt, f)
  set_buttons (some buttons) f = (ok tt, record f { buttons = buttons })

  abbrev pub set_delivered : Effect (Frame S) (Unit {0})
  set_delivered f = (ok tt, record f { delivered = true })
