-- ===== src/Application/GameClosings/Finalized.antt =====
-- The last command of an automatic closing, and what comes after it.
use mathlib.Core.Path.{subst}
use rolebot_hse.Base.{
  String, ◌≡◌, refl, sym, ap, ◌∙◌, Bool, Bool-cases, inl, inr, true, ◌||◌, none, some, List, [],
  ◌∷◌, arith, mem, string_eq, option_eq, ◌==◌, beq_refl,
}
use rolebot_hse.Base.Text.{◌&◌}
use rolebot_hse.Errors.{Result, ok}
use rolebot_hse.Dict.{get, put}
use rolebot_hse.Domain.Enums.{Platform, platform_eq, Operation, operation_eq}
use rolebot_hse.Domain.Event.{Datetime, Event}
use rolebot_hse.Store.Events.State.{Rows, Identity, list_leaders, on_event_found, get-put_self}
use rolebot_hse.Store.Events.Closing.{
  complete_actions, complete_scheduled_close_actions, complete_scheduled_close_notifications,
}
use rolebot_hse.Application.GameClosings.Actions.{
  Services, World, Action, with_rows, on_rows, or_raise, system_command, recipient_of, bind_ok,
  ◌>>=◌, pure,
}
use rolebot_hse.Application.GameClosings.{
  closing_id, current_event, call_refresh, notify_leaders, report, after_actions, complete_event,
  finalize_event, finalize, apply,
}
use rolebot_hse.Application.GameClosings.Run.{current_event_found}
use rolebot_hse.Application.GameClosings.Stale.{
  closing_operations, written_id, expected_id-written_id,
}
use rolebot_hse.Application.GameClosings.Completed.{
  IsOver, apply_over, complete_scheduled_close-IsOver,
}
use rolebot_hse.Application.Effects.{continue-ok}
use rolebot_hse.Application.GameClosings.Begun.{HasBegun, send_and_mark}

module _ (services : Services) where
  notify_leaders-HasBegun :
      (now : Datetime) (id op : String) (t : Datetime) (leaders : List Identity)
      (notified : List String) (w w' : World)
      → HasBegun id op t w
      → notify_leaders services now id op leaders notified w ≡ (ok tt, w')
      → HasBegun id op t w'
  unfolding notify_leaders
  notify_leaders-HasBegun now id op t [] notified w w' h r =
      subst (HasBegun id op t) (ap (λ x. x.1) r) h
  notify_leaders-HasBegun now id op t (leader ∷ leaders) notified w w' h r =
      let recipient = recipient_of leader in
      let request_id = op & ":" & recipient in
      elim (Bool-cases (mem recipient notified || leader.0 == Platform.system)) [
        | inl skip ↦ notify_leaders-HasBegun now id op t leaders notified w w' h (rw skip at r)
        | inr go ↦
            let (w₂, h₂, r₂) =
              send_and_mark (services.send leader request_id) now id op recipient request_id t
                services leader (notify_leaders services now id op leaders (recipient ∷ notified)) w
                w' h (rw go at r) in
            notify_leaders-HasBegun now id op t leaders (recipient ∷ notified) w₂ w' h₂ r₂
      ]

  -- What the write of the actions leaves of a closing that has begun.
  actions_ok :
      (now : Datetime) (id op : String) (t : Datetime) (w : World)
      → HasBegun id op t w
      → (w₁ : World) × (e : Event) × (on_rows (complete_scheduled_close_actions id op now) w
          ≡ (ok true, w₁))
        × (get id w₁.repository.rows ≡ some e)
        × (e.event_id ≡ id)
        × HasBegun id op t w₁
  unfolding complete_scheduled_close_actions complete_actions
  actions_ok now id op t w h =
      let e = (complete_actions op now h.event).0 in
      let w₁ = with_rows w (put id e w.repository.rows) in
      let own : e.event_id ≡ id = ground (arith, h.own_id) in
      let stored = get-put_self id e w.repository.rows in
      let flag : (complete_actions op now h.event).1 ≡ true =
        rw (h.begun_as, beq_refl op) (ground arith) in
      (
        w₁,
        e,
        ap (λ (x : Rows × Bool). (ok x.1, with_rows w x.0))
              (on_event_found id (complete_actions op now) w.repository.rows h.event h.stored)
            ∙ ap (λ b. (ok b, w₁)) flag,
        stored,
        own,
        record {
          event = e;
          stored = stored;
          own_id = own;
          at = ground (arith, h.at);
          begun_as = ground (arith, h.begun_as);
        },
      )

  -- The end of a report, for the game with an id.
  abbrev tell_and_complete : Datetime → String → List String → String → Action String
  tell_and_complete now op notified id =
      (λ w. notify_leaders services now id op (list_leaders id w.repository) notified w) >>= λ _.
      or_raise (complete_scheduled_close_notifications id op now) >>= λ _.
      pure "Игра закрыта, добавлена в статистику и архивирована; мастера уведомлены"

  tell_and_complete-IsOver :
      (now : Datetime) (id : String) (t : Datetime) (notified : List String) (text : String)
      (w w' : World)
      → HasBegun id (closing_id services id t) t w
      → tell_and_complete now (closing_id services id t) notified id w ≡ (ok text, w')
      → (e' : Event) × (over : Datetime) × IsOver e' id t over
        × (get id w'.repository.rows ≡ some e')
  tell_and_complete-IsOver now id t notified text w w' h r =
      let op = closing_id services id t in
      let leaders = list_leaders id w.repository in
      let (_, w₂, told, r₂) =
        continue-ok _ (notify_leaders services now id op leaders notified w) text w' r in
      let h₂ = notify_leaders-HasBegun now id op t leaders notified w w₂ h told in
      let (e', over, is_over, write) =
        complete_scheduled_close-IsOver services now id t h₂.event w₂.repository.rows h₂.stored
          h₂.own_id h₂.at h₂.begun_as in
      let last : or_raise (complete_scheduled_close_notifications id op now) w₂
          ≡ (ok tt, with_rows w₂ (put id e' w₂.repository.rows)) =
        rw (or_raise, write) refl in
      let same : with_rows w₂ (put id e' w₂.repository.rows) ≡ w' =
        ap (λ (x : Result String × World). x.1)
          (sym (
              bind_ok (or_raise (complete_scheduled_close_notifications id op now))
                (λ (_ : Unit {0}).
                  pure "Игра закрыта, добавлена в статистику и архивирована; мастера уведомлены")
                w₂ (with_rows w₂ (put id e' w₂.repository.rows)) tt last)
            ∙ r₂) in
      (
        e',
        over,
        is_over,
        subst (λ (x : World). get id x.repository.rows ≡ some e') same
            (get-put_self id e' w₂.repository.rows),
      )

  -- A report that returned left the closing over.
  report-IsOver :
      (now : Datetime) (id : String) (t : Datetime) (e : Event) (text : String) (w w' : World)
      → e.event_id ≡ id
      → HasBegun id (closing_id services id t) t w
      → report services now (closing_id services id t) (some e) w ≡ (ok text, w')
      → (e' : Event) × (over : Datetime) × IsOver e' id t over
        × (get id w'.repository.rows ≡ some e')
  report-IsOver now id t e text w w' i h r =
      let op = closing_id services id t in
      let (_, w₁, refreshed, r₁) = continue-ok _ (call_refresh services e w) text w' r in
      tell_and_complete-IsOver now id t e.scheduled_close_notified_recipients text w₁ w'
        (subst (HasBegun id op t) (ap (λ (x : Result (Unit {0}) × World). x.1) refreshed) h)
        (subst
          (λ x. tell_and_complete now op e.scheduled_close_notified_recipients x w₁ ≡ (ok text, w'))
          i r₁)

  finalize-IsOver :
      (made now : Datetime) (id last_id text : String) (t : Datetime) (w w' : World)
      → (h : HasBegun id (closing_id services id t) t w)
      → h.event.scheduled_close_completed_at ≡ none
      → written_id services id t Operation.scheduled_close_finalize ≡ some last_id
      → finalize services now (system_command made id last_id Operation.scheduled_close_finalize) w
        ≡ (ok text, w')
      → (e' : Event) × (over : Datetime) × IsOver e' id t over
        × (get id w'.repository.rows ≡ some e')
  unfolding finalize finalize_event complete_event
  finalize-IsOver made now id last_id text t w w' h n x r =
      let op = closing_id services id t in
      let command = system_command made id last_id Operation.scheduled_close_finalize in
      let found =
        current_event_found services made id last_id Operation.scheduled_close_finalize t h.event w
          h.stored h.own_id h.at
          (expected_id-written_id services id t Operation.scheduled_close_finalize ∙ x) in
      let (w₁, e, write, stored, own, h₁) = actions_ok now id op t w h in
      let run : finalize_event services now (h.event, op) w ≡ (ok text, w') =
        sym (
          bind_ok (current_event services command) (finalize_event services now) w w (h.event, op)
            found)
        ∙ r in
      let completing : complete_event services now h.event op w ≡ (ok text, w') =
        rw (n, h.begun_as, beq_refl op) at run in
      let own_run : (on_rows (complete_scheduled_close_actions id op now)
              >>= after_actions services now id op)
            w
          ≡ (ok text, w') =
        subst
          (λ x.
            (on_rows (complete_scheduled_close_actions x op now)
                >>= after_actions services now x op)
              w
            ≡ (ok text, w'))
          h.own_id completing in
      let reporting : report services now op (some e) w₁ ≡ (ok text, w') =
        subst (λ o. report services now op o w₁ ≡ (ok text, w')) stored
          (sym (
              bind_ok (on_rows (complete_scheduled_close_actions id op now))
                (after_actions services now id op) w w₁ true write)
            ∙ own_run) in
      report-IsOver now id t e text w₁ w' own h₁ reporting

  -- A closing that has begun, in a game that is there under its own id: when its last command has
  -- returned, each of its three commands that is delivered after that, at any time, with the id that
  -- the hash gives it, says that the closing is over and changes nothing: no write, no further
  -- command, no message.
  pub apply-finalize :
      (made now made' later : Datetime) (id last_id operation_id text : String)
      (operation : Operation) (t : Datetime) (e : Event) (w w' : World)
      → get id w.repository.rows ≡ some e
      → e.event_id ≡ id
      → e.scheduled_close_at ≡ some t
      → e.scheduled_close_operation_id ≡ some (closing_id services id t)
      → e.scheduled_close_completed_at ≡ none
      → written_id services id t Operation.scheduled_close_finalize ≡ some last_id
      → finalize services now (system_command made id last_id Operation.scheduled_close_finalize) w
        ≡ (ok text, w')
      → mem operation closing_operations ≡ true
      → written_id services id t operation ≡ some operation_id
      → apply services later (system_command made' id operation_id operation) w'
        ≡ (ok "Запланированное закрытие уже выполнено", w')
  apply-finalize made now made' later id last_id operation_id text operation t e w w' g i a o n x r
        m y =
      let h : HasBegun id (closing_id services id t) t w = record {
        event = e;
        stored = g;
        own_id = i;
        at = a;
        begun_as = o;
      } in
      let (e', over, is_over, stored) = finalize-IsOver made now id last_id text t w w' h n x r in
      apply_over services made' later id operation_id operation t over e' w' stored is_over m
        (expected_id-written_id services id t operation ∙ y)
