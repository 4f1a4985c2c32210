-- ===== src/Application/Notifications/Retry.antt =====
-- A command that told everybody of its snapshot tells nobody when it is delivered again.
use mathlib.Core.Path.{subst}
use rolebot_hse.Base.{
  ◌≡◌, refl, sym, ap, ◌∙◌, ℕ, String, Bool, true, false, Bool-cases, inl, inr, Option, some, List,
  [], ◌∷◌, map, mem, string_eq, option_eq, option_beq_iff, ◌==◌,
}
use rolebot_hse.Errors.{Result, ok, err, Error}
use rolebot_hse.Dict.{get}
use rolebot_hse.Domain.Enums.{Operation, operation_eq}
use rolebot_hse.Domain.Event.{Datetime, Event}
use rolebot_hse.Domain.Registration.{Registration}
use rolebot_hse.Domain.Command.{OrderedRegistrationCommand}
use rolebot_hse.Domain.Queues.{main_roster}
use rolebot_hse.Store.Registrations.State.{list_for_event}
use rolebot_hse.Application.TableLinks.{public_table_links}
use rolebot_hse.Application.Effects.{◌>>=◌}
use rolebot_hse.Application.Support.{parse_sift_snapshot_entry}
use rolebot_hse.Application.Mutations.Rosters.{current_sift_entries}
use rolebot_hse.Application.Notifications.{State, Library, Gateways, identities_in, found}
use rolebot_hse.Application.Notifications.Texts.{
  event_reference, removal_text, capacity_promotion_text, sift_promotion_text, demotion_text,
}
use rolebot_hse.Application.Notifications.Snapshot.{
  Parcel, parsed_parcel, deliver_planned, notify_planned, removal_plan, capacity_plan, sift_plan,
  notify_removed_participants, notify_capacity_promotions, notify_sifted_participants,
}
use rolebot_hse.Application.Notifications.Marking.{IsDone, SameGame, Progress}
use rolebot_hse.Application.Notifications.Progress.{
  Progress-called, deliver_each-Progress, deliver_each-IsDone,
}

-- A plan that depends on what a run keeps is made again as it was.
abbrev IsStable : {S : Type 0} → (Event → State S → List (String × Option Parcel)) → Type 0
IsStable {S = S} plan =
    (id : String) (e : Event) (w w' : State S) (p : Progress id e w w') → plan p.event w' ≡ plan e w

pub not_returned :
    {S : Type 0} (n : ℕ) (w w' : State S) (x : Result ℕ × State S)
    → x ≡ (err Error.value_error, w)
    → x ≡ (ok n, w')
    → ⊥
not_returned n w w' x h k = cc

module _ {S : Type 0} (gateways : Gateways S) (now : Datetime) where
  marked_again :
      (plan : Event → State S → List (String × Option Parcel)) (op : String) (id : String)
      (w w' : State S) (e : Event) (p : Progress id e w w')
      → IsStable plan
      → p.event.last_participant_removal_operation_id ≡ some op
      → IsDone (plan e w) p.event.participant_removal_notified_keys
      → deliver_planned gateways now op plan p.event w' ≡ (ok 0, w')
  marked_again plan op id w w' e p stable l d =
      rw
        ((option_beq_iff ⦃e = string_eq⦄ p.event.last_participant_removal_operation_id (some op)).1
          l)
        (deliver_each-IsDone gateways now p.event.event_id op
          p.event.participant_removal_notified_keys 0 (plan p.event w') w'
          (subst (λ entries. IsDone entries p.event.participant_removal_notified_keys)
            (sym (stable id e w w' p)) d))

  deliver_planned_again :
      (plan : Event → State S → List (String × Option Parcel)) (op : String) (n : ℕ)
      (w w' : State S) (e : Event)
      → IsStable plan
      → get e.event_id w.events.rows ≡ some e
      → deliver_planned gateways now op plan e w ≡ (ok n, w')
      → (e' : Event) × (get e.event_id w'.events.rows ≡ some e')
        × (deliver_planned gateways now op plan e' w' ≡ (ok 0, w'))
  deliver_planned_again plan op n w w' e stable g h =
      elim (Bool-cases (e.last_participant_removal_operation_id == some op)) [
        | inl own ↦
            let l =
              (option_beq_iff ⦃e = string_eq⦄ e.last_participant_removal_operation_id (some op)).0
                own in
            let (p, d) =
              deliver_each-Progress gateways now e.event_id op e.participant_removal_notified_keys 0
                n (plan e w) w w' e (rw own at h) g l (λ k i. i) in
            (
              p.event,
              p.stored,
              marked_again plan op e.event_id w w' e p stable
                  (Progress-called gateways now e.event_id op e w w' p l) d,
            )
        | inr other ↦
            let same : (ok 0, w) ≡ (ok n, w') = rw other at h in
            rw (← ap (λ x. x.1) same) (e, g, rw other refl)
      ]

  pub notify_planned-found :
      (operations : List Operation) (plan : Event → State S → List (String × Option Parcel))
      (c : OrderedRegistrationCommand) (w : State S) (e : Event)
      → mem c.operation operations ≡ true
      → get c.event_id w.events.rows ≡ some e
      → notify_planned gateways now operations plan c w
        ≡ deliver_planned gateways now c.operation_id plan e w
  unfolding notify_planned
  notify_planned-found operations plan c w e m g =
      rw m (ap (λ o. (found o >>= deliver_planned gateways now c.operation_id plan) w) g)

  notify_planned-foreign :
      (operations : List Operation) (plan : Event → State S → List (String × Option Parcel))
      (c : OrderedRegistrationCommand) (w : State S)
      → mem c.operation operations ≡ false
      → notify_planned gateways now operations plan c w ≡ (err Error.value_error, w)
  unfolding notify_planned
  notify_planned-foreign operations plan c w m = rw m

  notify_planned_again :
      (operations : List Operation) (plan : Event → State S → List (String × Option Parcel))
      (c : OrderedRegistrationCommand) (n : ℕ) (w w' : State S) (e : Event)
      → IsStable plan
      → get c.event_id w.events.rows ≡ some e
      → e.event_id ≡ c.event_id
      → notify_planned gateways now operations plan c w ≡ (ok n, w')
      → notify_planned gateways now operations plan c w' ≡ (ok 0, w')
  notify_planned_again operations plan c n w w' e stable g k h =
      elim (Bool-cases (mem c.operation operations)) [
        | inl m ↦
            let (e', g', h') =
              deliver_planned_again plan c.operation_id n w w' e stable
                (subst (λ i. get i w.events.rows ≡ some e) (sym k) g)
                (sym (notify_planned-found operations plan c w e m g) ∙ h) in
            notify_planned-found operations plan c w' e' m
              (subst (λ i. get i w'.events.rows ≡ some e') k g')
            ∙ h'
        | inr m ↦ absurd (not_returned n w w' _ (notify_planned-foreign operations plan c w m) h)
      ]

main_roster-SameGame :
    (rows : List Registration) (e e' : Event)
    → SameGame e e'
    → main_roster e' rows ≡ main_roster e rows
unfolding main_roster
main_roster-SameGame rows e e' s = ap (λ x. main_roster x rows) s

current_sift_entries-SameGame :
    (snapshot : List String) (rows : List Registration) (e e' : Event)
    → SameGame e e'
    → current_sift_entries snapshot rows e' ≡ current_sift_entries snapshot rows e
unfolding current_sift_entries
current_sift_entries-SameGame [] rows e e' s = refl
current_sift_entries-SameGame (entry ∷ entries) rows e e' s =
    rw (main_roster-SameGame rows e e' s, current_sift_entries-SameGame entries rows e e' s) refl

module _ {S : Type 0} (library : Library) (gateways : Gateways S) where
  removal_plan-IsStable :
      (op : String)
      → IsStable {S = S} (λ event w. removal_plan library gateways op event (identities_in w))
  unfolding removal_plan removal_text event_reference
  removal_plan-IsStable op id e w w' p =
      rw p.identities (ap (λ x. removal_plan library gateways op x (identities_in w)) p.same)

  capacity_plan-IsStable :
      (op : String)
      → IsStable {S = S} (λ event w.
        capacity_plan library gateways op event
          (identities_in w)
          (list_for_event event.event_id w.registrations.rows))
  unfolding capacity_plan capacity_promotion_text event_reference public_table_links
  capacity_plan-IsStable op id e w w' p =
      rw (p.identities, p.registrations)
        (ap
          (λ x.
            capacity_plan library gateways op x (identities_in w)
              (list_for_event x.event_id w.registrations.rows))
          p.same)

  sift_plan-IsStable :
      (op : String) (by_masters : Bool)
      → IsStable {S = S} (λ event w.
        sift_plan library gateways op by_masters event
          (identities_in w)
          (list_for_event event.event_id w.registrations.rows))
  unfolding sift_plan sift_promotion_text demotion_text event_reference public_table_links
  sift_plan-IsStable op by_masters id e w w' p =
      rw (p.identities, p.registrations)
        (ap (λ entries. planned entries p.event)
            (current_sift_entries-SameGame p.event.participant_removal_keys
              (list_for_event p.event.event_id w.registrations.rows) e p.event p.same)
          ∙ ap
              (λ x.
                planned
                  (current_sift_entries x.participant_removal_keys
                    (list_for_event x.event_id w.registrations.rows) e)
                  x)
              p.same)
    where
      planned : List String → Event → List (String × Option Parcel)
      planned entries x =
          map
            (λ entry. (
              entry,
              parsed_parcel library gateways x op by_masters (identities_in w) (mem entry entries)
                  (parse_sift_snapshot_entry entry),
            ))
            x.participant_removal_keys

module _ {S : Type 0} (library : Library) (gateways : Gateways S) (now : Datetime) where
  -- A removal of players that told everybody it could reach tells nobody when it is delivered again,
  -- and changes nothing.
  notify_removed_participants_again :
      (c : OrderedRegistrationCommand) (n : ℕ) (w w' : State S) (e : Event)
      → get c.event_id w.events.rows ≡ some e
      → e.event_id ≡ c.event_id
      → notify_removed_participants library gateways now c w ≡ (ok n, w')
      → notify_removed_participants library gateways now c w' ≡ (ok 0, w')
  unfolding notify_removed_participants
  notify_removed_participants_again c n w w' e =
      notify_planned_again gateways now (Operation.remove_participant ∷ []) _ c n w w' e
        (removal_plan-IsStable library gateways c.operation_id)

  -- A change of the number of places that told everybody of its snapshot, and returned, tells nobody
  -- when it is delivered again, and changes nothing.
  notify_capacity_promotions_again :
      (c : OrderedRegistrationCommand) (n : ℕ) (w w' : State S) (e : Event)
      → get c.event_id w.events.rows ≡ some e
      → e.event_id ≡ c.event_id
      → notify_capacity_promotions library gateways now c w ≡ (ok n, w')
      → notify_capacity_promotions library gateways now c w' ≡ (ok 0, w')
  unfolding notify_capacity_promotions
  notify_capacity_promotions_again c n w w' e =
      notify_planned_again gateways now (Operation.update_player_amount ∷ []) _ c n w w' e
        (capacity_plan-IsStable library gateways c.operation_id)

  -- A sift, in an event stored under its own id, that told the players whom it moved, and returned,
  -- tells nobody when it is delivered again, and changes nothing.
  pub notify_sifted_participants_again :
      (c : OrderedRegistrationCommand) (n : ℕ) (w w' : State S) (e : Event)
      → get c.event_id w.events.rows ≡ some e
      → e.event_id ≡ c.event_id
      → notify_sifted_participants library gateways now c w ≡ (ok n, w')
      → notify_sifted_participants library gateways now c w' ≡ (ok 0, w')
  unfolding notify_sifted_participants
  notify_sifted_participants_again c n w w' e =
      notify_planned_again gateways now
        (Operation.remove_waiting_participants ∷ Operation.promote_reserve_participant ∷ []) _ c n w
        w' e
        (sift_plan-IsStable library gateways c.operation_id
          (c.operation == Operation.promote_reserve_participant))
