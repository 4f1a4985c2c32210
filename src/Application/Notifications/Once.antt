-- ===== src/Application/Notifications/Once.antt =====
-- A notification that leaves a mark on its event, or does nothing.
use mathlib.Core.Path.{subst}
use rolebot_hse.Base.{
  ◌≡◌, refl, sym, ap, ◌∙◌, ◌⊎◌, inl, inr, ℕ, String, false, Bool-cases, Option, some, mem, or_else,
  arith, string_eq, option_eq, nat_eq, pair_eq, beq_refl, if◌then◌else◌,
}
use rolebot_hse.Errors.{Result, ok, Error}
use rolebot_hse.Dict.{get, put}
use rolebot_hse.Domain.Enums.{platform_eq, operation_eq}
use rolebot_hse.Domain.Event.{Event}
use rolebot_hse.Domain.Command.{OrderedRegistrationCommand}
use rolebot_hse.Store.Events.State.{on_event_or_raise, on_event_or_raise_found, get-put_self}
use rolebot_hse.Application.Effects.{Effect, ◌>>=◌, pure, raise}
use rolebot_hse.Application.Mutations.{with_events, changed, change_events}
use rolebot_hse.Application.Notifications.{State, required_event, found}
use rolebot_hse.Application.Notifications.Retry.{not_returned}
use rolebot_hse.Application.Notifications.Promotions.{promoting_operations, is_pending}

module _ {S : Type 0} where
  -- The event after a mark, where what is done behind the mark leaves the events alone.
  pub event_after :
      (id : String) (f : Event → Event) (e : Event) (n : ℕ) (s w' : State S)
      (rest : Result (Unit {0}) × State S → Result ℕ × State S)
      → ((v : State S) → (rest (ok tt, v)).1.events ≡ v.events)
      → get id s.events.rows ≡ some e
      → rest (change_events (on_event_or_raise id f) s) ≡ (ok n, w')
      → get id w'.events.rows ≡ some (f e)
  event_after id f e n s w' rest keeps g h =
      let run =
        sym h ∙ ap (λ x. rest (changed s x)) (on_event_or_raise_found id f s.events.rows e g) in
      let events : w'.events ≡ (with_events s (put id (f e) s.events.rows)).events =
        ap (λ x. x.1.events) run ∙ keeps (with_events s (put id (f e) s.events.rows)) in
      ap (λ x. get id x.rows) events ∙ get-put_self id (f e) s.events.rows

-- Nothing was done, or the event has the mark.
abbrev pub IsOnce : {S : Type 0} → Event → Event → ℕ → State S → State S → Type 0
IsOnce e e' n w w' = ((n ≡ 0) × (w' ≡ w)) ⊎ (get e.event_id w'.events.rows ≡ some e')

pub returned_zero :
    {S : Type 0} (n : ℕ) (w w' : State S) → pure 0 w ≡ (ok n, w') → (n ≡ 0) × (w' ≡ w)
returned_zero n w w' h = (cc, sym (ap (λ x. x.1) h))

pub is_pending-told :
    (promotion : Option String) (op : String) → is_pending promotion (some op) op ≡ false
is_pending-told promotion op = ground (arith, beq_refl op)

-- What is done once finds nothing to do on its second run.
pub once_again :
    {S : Type 0} (run : Event → Effect (State S) ℕ) (e e' : Event) (n : ℕ) (w w' : State S)
    → get e.event_id w.events.rows ≡ some e
    → run e w ≡ (ok n, w')
    → IsOnce e e' n w w'
    → run e' w' ≡ (ok 0, w')
    → (x : Event) × (get e.event_id w'.events.rows ≡ some x) × (run x w' ≡ (ok 0, w'))
once_again run e e' n w w' g h (inl (zero_n, same)) k = (
  e,
  ap (λ x. get e.event_id x.events.rows) same ∙ g,
  ap (run e) same ∙ h ∙ ap (λ m. (ok m, w')) zero_n,
)
once_again run e e' n w w' g h (inr stored) k = (e', stored, k)

module _ {S : Type 0} where
  -- Both notifications start in the same way.
  abbrev pub of_event :
      OrderedRegistrationCommand → Option String → (Event → Effect (State S) ℕ) → Effect (State S) ℕ
  of_event c event_id run =
      if mem c.operation promoting_operations
      then required_event (or_else event_id c.event_id) >>= run
      else raise Error.value_error

  pub of_event_again :
      (c : OrderedRegistrationCommand) (event_id : Option String) (run : Event → Effect (State S) ℕ)
      (e : Event) (n : ℕ) (w w' : State S)
      → get (or_else event_id c.event_id) w.events.rows ≡ some e
      → e.event_id ≡ or_else event_id c.event_id
      → (run e w ≡ (ok n, w')
          → (x : Event) × (get e.event_id w'.events.rows ≡ some x) × (run x w' ≡ (ok 0, w')))
      → of_event c event_id run w ≡ (ok n, w')
      → of_event c event_id run w' ≡ (ok 0, w')
  of_event_again c event_id run e n w w' g k again h =
      elim (Bool-cases (mem c.operation promoting_operations)) [
        | inl own ↦
            let found_w = ap (λ o. (found o >>= run) w) g in
            let (x, g', h') = again (sym found_w ∙ (rw own at h)) in
            rw own (
              ap (λ o. (found o >>= run) w') (subst (λ i. get i w'.events.rows ≡ some x) k g') ∙ h')
        | inr other ↦ absurd (not_returned n w w' _ refl (rw other at h))
      ]
