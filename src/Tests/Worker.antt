-- ===== src/Tests/Worker.antt =====
-- A run of the worker over two batches, and single commands.
use rolebot_hse.Base.{
  String, ◌≡◌, refl, true, false, Option, none, some, List, [], ◌∷◌, length, if◌then◌else◌, ◌==◌,
  ◌≢◌, string_eq, nat_eq, pair_eq, option_eq, mem, ◌||◌, keep_if,
}
use rolebot_hse.Base.Text.{◌&◌}
use rolebot_hse.Base.Order.{nat_order}
use rolebot_hse.Base.Sort.{sort_by, insert_by}
use rolebot_hse.Errors.{ok, err, Error}
use rolebot_hse.Domain.Enums.{Platform, platform_eq, Operation}
use rolebot_hse.Domain.User.{Identity}
use rolebot_hse.Domain.Command.{OrderedRegistrationCommand, queue_group_id}
use rolebot_hse.Store.Users.{claim_delivery}
use rolebot_hse.Application.Effects.{Effect}
use rolebot_hse.Application.Support.{Sending, done}
use rolebot_hse.Application.GameClosings.Actions.{system_command}
use rolebot_hse.Application.Worker.{QueueEnvelope, World, Services}
use rolebot_hse.Application.Worker.Reply.{deliver_once}
use rolebot_hse.Application.Worker.Handle.{handle}
use rolebot_hse.Application.Worker.Drain.{Poll, drain, first_loop, serve, serve_one, in_order, run}
use rolebot_hse.Application.Worker.Log.{IsFifo, in_group, attempts_of, received}
use rolebot_hse.Application.Worker.Fifo.{drain-IsFifo}
use rolebot_hse.Application.Worker.Receipts.{was_handled, run-is_kept}
use rolebot_hse.Application.Worker.Outcome.{scheduled, all_handled, run-ok}
use rolebot_hse.Application.Worker.Delivery.{deliver_once_again, answered, handle-refused}
use rolebot_hse.Tests.Distinct.{differ}
use rolebot_hse.Domain.User.{base_of}
use rolebot_hse.Tests.Data.{on_vk, users}

abbrev identity : Identity
identity = (Platform.vk, 6)

-- A cancellation by a user of VK.
abbrev cancellation : String → String → OrderedRegistrationCommand
cancellation id event_id = record (system_command 905 event_id id Operation.cancel) {
  platform = Platform.vk;
  platform_user_id = 6;
  participant_key = some "vk:6";
}

abbrev raw : String → String → QueueEnvelope
raw id event_id = record { command = cancellation id event_id; receipt_handle = id & "!" }

abbrev no_call : Effect (World (Unit {0})) (Unit {0})
no_call w = (ok tt, w)

-- The mutation of "broken" fails, and that of "late" is refused.
abbrev services : Services (Unit {0})
services = record {
  mutations = record {
    apply = λ (c : OrderedRegistrationCommand) (w : World (Unit {0})).
        if c.operation_id == "broken"
        then (err Error.runtime_error, w)
        else if c.operation_id == "late"
        then (err Error.domain_error, w)
        else (ok (done "done"), w);
    require_event = λ _ w. (err Error.domain_error, w);
    require_active_event_leader = λ _ w. (err Error.domain_error, w);
  };
  notifications = none;
  statistics = none;
  scheduled_game_closing = none;
  administration = none;
  send = λ _ _. Sending.delivered;
  delete = λ _. no_call;
  domain_text = λ _ _. "closed";
  tables_text = λ _. "tables";
}

abbrev world : World (Unit {0})
world = record { users = users; sent = []; rest = tt }

-- The third command of the ball is not attempted, since the second fails.
abbrev polls : List Poll
polls =
    Poll.batch (raw "a" "ball" ∷ raw "broken" "ball" ∷ raw "b" "siege" ∷ [])
    ∷ Poll.batch (raw "c" "ball" ∷ raw "late" "siege" ∷ [])
    ∷ Poll.batch []
    ∷ []

abbrev quiet_polls : List Poll
quiet_polls = Poll.batch (raw "a" "ball" ∷ raw "late" "ball" ∷ []) ∷ Poll.batch [] ∷ []

drain-IsFifo_example :
    IsFifo
      (keep_if (in_group "ball") (received polls))
      (attempts_of "ball" (drain services polls (first_loop services world)).1.attempts)
unfolding queue_group_id
drain-IsFifo_example = drain-IsFifo services "ball" 0 polls world (refl, (refl, (refl, tt)))

run-is_kept_example :
    (mem "c!" (run services polls world).1.1
      || was_handled "c!" (run services polls world).1.0.attempts)
    ≡ true
run-is_kept_example = run-is_kept services "c!" polls world refl

quiet_run : (run services quiet_polls world).0 ≡ ok 2
unfolding run drain serve serve_one handle in_order queue_group_id sort_by insert_by claim_delivery
quiet_run = refl

run-ok_example :
    ((run services quiet_polls world).1.0.attempts ≡ all_handled (scheduled quiet_polls))
    × (2 ≡ length (scheduled quiet_polls))
run-ok_example = run-ok services quiet_polls world 2 quiet_run

-- The run over both batches raises, with the first two commands of the ball attempted.
failed_run :
    attempts_of "ball" (drain services polls (first_loop services world)).1.attempts
    ≡ (raw "a" "ball", true) ∷ (raw "broken" "ball", false) ∷ []
unfolding drain serve serve_one handle in_order queue_group_id sort_by insert_by claim_delivery
failed_run = refl

deliver_once_again_example :
    deliver_once services
      (cancellation "a" "ball")
      "twice"
      []
      (deliver_once services (cancellation "a" "ball") "once" [] world).1
    ≡ (ok tt, (deliver_once services (cancellation "a" "ball") "once" [] world).1)
deliver_once_again_example =
    deliver_once_again services (cancellation "a" "ball") "once" "twice" [] [] world on_vk refl refl

not_told : ◌≢◌ {A = Option String} (base_of on_vk).last_delivery_operation_id (some "late")
not_told = differ (base_of on_vk).last_delivery_operation_id (some "late") refl

handle-refused_example :
    (handle services (raw "late" "ball") world
      ≡ (ok tt, answered services (cancellation "late" "ball") world))
    × (handle services (raw "late" "ball") (answered services (cancellation "late" "ball") world)
        ≡ (ok tt, answered services (cancellation "late" "ball") world))
handle-refused_example =
    handle-refused services (raw "late" "ball") world world
      (answered services (cancellation "late" "ball") world)
      (answered services (cancellation "late" "ball") world) on_vk refl refl refl refl not_told refl
      refl refl
