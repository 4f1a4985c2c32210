-- ===== src/Application/Notifications/Live.antt =====
-- Where no call of the transport fails, everybody in the snapshot of a removal is told.
use mathlib.Core.Path.{subst}
use rolebot_hse.Base.{
  ◌≡◌, ◌≢◌, refl, sym, ap, ◌∙◌, inl, inr, ℕ, suc, String, Bool, true, false, Bool-cases,
  Option-cases, Option, none, some, List, [], ◌∷◌, map, mem, all_of, ◌||◌, is_none, or_else,
  string_eq, option_eq, option_beq_iff, if◌then◌else◌,
}
use rolebot_hse.Errors.{ok}
use rolebot_hse.Dict.{get}
use rolebot_hse.Domain.Enums.{Operation, operation_eq}
use rolebot_hse.Domain.Event.{Datetime, Event}
use rolebot_hse.Domain.User.{Identity}
use rolebot_hse.Domain.Command.{OrderedRegistrationCommand}
use rolebot_hse.Application.Effects.{continue}
use rolebot_hse.Application.Support.{Sending}
use rolebot_hse.Application.Notifications.{
  Letter, State, Library, Gateways, tried, deliver_all, last_with_key, identities_in,
}
use rolebot_hse.Application.Notifications.Snapshot.{
  Parcel, send_parcel, deliver_each, removal_plan, removal_parcel, notify_removed_participants,
}
use rolebot_hse.Application.Notifications.Retry.{notify_planned-found}
use rolebot_hse.Application.Notifications.Marking.{IsDone}
use rolebot_hse.Application.Notifications.Progress.{
  Progress-called, deliver_all-IsApart, marked_state, mark_and_claim, after_letters,
  send_parcel-Progress, deliver_each-Progress,
}

-- Every letter arrives or is refused for good.
abbrev pub NeverFails : {S : Type 0} → Gateways S → Type 0
NeverFails gateways =
    (attempts : List (Letter × Sending)) (letter : Letter)
    → gateways.transport attempts letter ≢ Sending.failed

-- The texts of the parcels are made.
abbrev AllMade : List (String × Option Parcel) → Type 0
AllMade [] = Unit {0}
AllMade ((entry, none) ∷ entries) = AllMade entries
AllMade ((entry, some parcel) ∷ entries) =
    ((letters : List Letter) × (parcel.letters ≡ ok letters)) × AllMade entries

module _ {S : Type 0} (gateways : Gateways S) (live : NeverFails gateways) where
  deliver_all-ok :
      (last : Option String) (letters : List Letter) (w : State S)
      → (x : Bool × Option String) × (s : State S) × (deliver_all gateways last letters w
          ≡ (ok x, s))
  unfolding deliver_all
  deliver_all-ok last [] w = ((true, last), w, refl)
  deliver_all-ok last (letter ∷ letters) w =
      by_sending (gateways.transport w.rest.attempts letter) refl
        (deliver_all-ok (some letter.request_id) letters (tried letter Sending.delivered w))
    where
      by_sending :
          (sending : Sending)
          → gateways.transport w.rest.attempts letter ≡ sending
          → ((x : Bool × Option String) × (s : State S) × (deliver_all gateways
                  (some letter.request_id)
                  letters
                  (tried letter Sending.delivered w)
                ≡ (ok x, s)))
          → (x : Bool × Option String) × (s : State S) × (deliver_all gateways last
                (letter ∷ letters)
                w
              ≡ (ok x, s))
      by_sending Sending.delivered e (x, s, h) = (x, s, rw e h)
      by_sending Sending.unreachable e r =
          ((false, some letter.request_id), tried letter Sending.unreachable w, rw e)
      by_sending Sending.failed e r = absurd (live w.rest.attempts letter e)

  module _ (now : Datetime) (id : String) where
    send_parcel-ok :
        (op entry : String) (parcel : Parcel) (letters : List Letter) (w : State S) (e : Event)
        → parcel.letters ≡ ok letters
        → get id w.events.rows ≡ some e
        → (r : Bool) × (s : State S) × (send_parcel gateways now id op entry parcel w ≡ (ok r, s))
    unfolding send_parcel
    send_parcel-ok op entry parcel letters w e l g =
        let ((reached, last), s, h) = deliver_all-ok none letters w in
        let events = (deliver_all-IsApart gateways none letters w).0 in
        let g' : get id s.events.rows ≡ some e =
          ap (λ y. get id y.1.events.rows) (sym h) ∙ ap (λ y. get id y.rows) events ∙ g in
        (
          reached,
          marked_state gateways now id op entry parcel.to (or_else last "") e s,
          rw l (
              ap (continue (after_letters gateways now id op entry parcel.to)) h
              ∙ mark_and_claim gateways now id op entry parcel.to (or_else last "") reached s e g'),
        )

    deliver_each-ok :
        (op : String) (notified : List String) (n : ℕ) (entries : List (String × Option Parcel))
        (w : State S) (e : Event)
        → AllMade entries
        → get id w.events.rows ≡ some e
        → e.last_participant_removal_operation_id ≡ some op
        → (m : ℕ) × (w' : State S) × (deliver_each gateways now id op notified n entries w
            ≡ (ok m, w'))
    unfolding deliver_each
    deliver_each-ok op notified n [] w e a g l = (n, w, refl)
    deliver_each-ok op notified n ((entry, none) ∷ entries) w e a g l =
        deliver_each-ok op notified n entries w e a g l
    deliver_each-ok op notified n ((entry, some parcel) ∷ entries) w e a g l =
        elim (Bool-cases (mem entry notified)) [
          | inl old ↦ rw (old, deliver_each) (deliver_each-ok op notified n entries w e a.1 g l)
          | inr new ↦
              let (r, s, h) = send_parcel-ok op entry parcel a.0.0 w e a.0.1 g in
              let (p, done) = send_parcel-Progress gateways now id op entry parcel w s r e h g l in
              let (m, w', later) =
                deliver_each-ok op (entry ∷ notified) (if r then suc n else n) entries s p.event a.1
                  p.stored (Progress-called gateways now id op e w s p l) in
              (
                m,
                w',
                rw (new, deliver_each)
                    (ap
                        (continue (λ r.
                          deliver_each gateways now id op (entry ∷ notified)
                            (if r then suc n else n) entries))
                        h
                      ∙ later),
              )
        ]

module _ {S : Type 0} (library : Library) (gateways : Gateways S) (live : NeverFails gateways)
    (now : Datetime) where
  removal_entries : String → Event → List Identity → List String → List (String × Option Parcel)
  removal_entries op e identities keys =
      map
        (λ key. (
          key,
          removal_parcel library gateways e op (last_with_key gateways e.event_id key identities),
        ))
        keys

  removal-AllMade :
      (op : String) (e : Event) (identities : List Identity) (keys : List String)
      → AllMade (removal_entries op e identities keys)
  unfolding removal_entries
  removal-AllMade op e identities [] = tt
  removal-AllMade op e identities (key ∷ keys) =
      by_user (last_with_key gateways e.event_id key identities)
        (removal-AllMade op e identities keys)
    where
      by_user :
          (o : Option Identity)
          → AllMade (removal_entries op e identities keys)
          → AllMade
              ((key, removal_parcel library gateways e op o) ∷ removal_entries op e identities keys)
      by_user none rest = rest
      by_user (some to) rest = ((_, refl), rest)

  -- Whether each key that a user has is among the marks.
  abbrev pub all_marked : Event → List Identity → List String → List String → Bool
  all_marked e identities marks keys =
      all_of (λ key. is_none (last_with_key gateways e.event_id key identities) || mem key marks)
        keys

  IsDone-all_marked :
      (op : String) (e : Event) (identities : List Identity) (marks keys : List String)
      → IsDone (removal_entries op e identities keys) marks
      → all_marked e identities marks keys ≡ true
  unfolding removal_entries
  IsDone-all_marked op e identities marks [] d = refl
  IsDone-all_marked op e identities marks (key ∷ keys) d =
      elim (Option-cases (last_with_key gateways e.event_id key identities)) [
        | inl gone ↦
            rw gone (IsDone-all_marked op e identities marks keys (rw (gone, removal_entries) at d))
        | inr (to, there) ↦
            let d' : (mem key marks ≡ true) × IsDone (removal_entries op e identities keys) marks =
              rw (there, removal_entries) at d in
            rw (there, d'.0) (IsDone-all_marked op e identities marks keys d'.1)
      ]

  run_planned :
      (op : String) (e : Event) (identities : List Identity) (w : State S)
      → get e.event_id w.events.rows ≡ some e
      → e.last_participant_removal_operation_id ≡ some op
      → (n : ℕ) × (w' : State S) × (e' : Event) × (deliver_each gateways now e.event_id op
            e.participant_removal_notified_keys 0
            (removal_plan library gateways op e identities)
            w
          ≡ (ok n, w'))
        × (get e.event_id w'.events.rows ≡ some e')
        × (all_marked e identities e'.participant_removal_notified_keys e.participant_removal_keys
            ≡ true)
  unfolding removal_plan removal_entries
  run_planned op e identities w g l =
      let entries = removal_entries op e identities e.participant_removal_keys in
      let (n, w', h) =
        deliver_each-ok gateways live now e.event_id op e.participant_removal_notified_keys 0
          entries w e (removal-AllMade op e identities e.participant_removal_keys) g l in
      let (p, d) =
        deliver_each-Progress gateways now e.event_id op e.participant_removal_notified_keys 0 n
          entries w w' e h g l (λ i m. m) in
      (
        n,
        w',
        p.event,
        h,
        p.stored,
        IsDone-all_marked op e identities p.event.participant_removal_notified_keys
            e.participant_removal_keys d,
      )

  pub notify_removed_participants_ok :
      (c : OrderedRegistrationCommand) (e : Event) (w : State S)
      → c.operation ≡ Operation.remove_participant
      → get c.event_id w.events.rows ≡ some e
      → e.event_id ≡ c.event_id
      → e.last_participant_removal_operation_id ≡ some c.operation_id
      → (n : ℕ) × (w' : State S) × (e' : Event) × (notify_removed_participants library gateways now
            c w
          ≡ (ok n, w'))
        × (get c.event_id w'.events.rows ≡ some e')
        × (all_marked e
              (identities_in w)
              e'.participant_removal_notified_keys
              e.participant_removal_keys
            ≡ true)
  unfolding notify_removed_participants
  notify_removed_participants_ok c e w o g k l = by_run (
      run_planned c.operation_id e (identities_in w) w
        (subst (λ i. get i w.events.rows ≡ some e) (sym k) g) l)
    where
      by_run :
          ((n : ℕ) × (w' : State S) × (e' : Event) × (deliver_each gateways now e.event_id
                c.operation_id e.participant_removal_notified_keys 0
                (removal_plan library gateways c.operation_id e (identities_in w))
                w
              ≡ (ok n, w'))
            × (get e.event_id w'.events.rows ≡ some e')
            × (all_marked e
                  (identities_in w)
                  e'.participant_removal_notified_keys
                  e.participant_removal_keys
                ≡ true))
          → (n : ℕ) × (w' : State S) × (e' : Event) × (notify_removed_participants library gateways
                now c w
              ≡ (ok n, w'))
            × (get c.event_id w'.events.rows ≡ some e')
            × (all_marked e
                  (identities_in w)
                  e'.participant_removal_notified_keys
                  e.participant_removal_keys
                ≡ true)
      by_run (n, w', e', h, stored, told) = (
        n,
        w',
        e',
        notify_planned-found gateways now (Operation.remove_participant ∷ [])
              (λ x v. removal_plan library gateways c.operation_id x (identities_in v)) c w e
              (ap (λ x. mem x (Operation.remove_participant ∷ [])) o) g
            ∙ rw
                ((option_beq_iff ⦃e = string_eq⦄ e.last_participant_removal_operation_id
                    (some c.operation_id)).1
                  l)
                h,
        subst (λ i. get i w'.events.rows ≡ some e') k stored,
        told,
      )
