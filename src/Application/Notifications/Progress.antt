-- ===== src/Application/Notifications/Progress.antt =====
-- What the loop over a snapshot leaves: every entry that has a recipient is marked, and all that the
-- entries are made of stays.
use mathlib.Core.Path.{subst}
use rolebot_hse.Base.{
  ◌≡◌, refl, sym, ap, ◌∙◌, ℕ, suc, String, Bool, true, Bool-cases, inl, inr, Option, none, some,
  List, [], ◌∷◌, map, mem, or_else, arith, string_eq, option_eq, nat_eq, pair_eq, if◌then◌else◌,
}
use rolebot_hse.Errors.{Result, ok, err}
use rolebot_hse.Dict.{get, put, values}
use rolebot_hse.Domain.Enums.{platform_eq}
use rolebot_hse.Domain.Event.{Datetime, Event}
use rolebot_hse.Domain.User.{Identity, local_identity}
use rolebot_hse.Store.Users.{claim_delivery}
use rolebot_hse.Store.Events.State.{on_event_or_raise_found, get-put_self}
use rolebot_hse.Store.Events.Delivery.{mark_participant_removal_delivered}
use rolebot_hse.Application.Effects.{Effect, ◌>>=◌, ◌>>◌, pure, continue, continue-ok}
use rolebot_hse.Application.Support.{Sending}
use rolebot_hse.Application.Mutations.{with_events, change_events, changed}
use rolebot_hse.Application.Notifications.{
  rows_in, Letter, State, Gateways, tried, deliver_all, user_rows, with_users, claim,
}
use rolebot_hse.Application.Notifications.Texts.{main_menu}
use rolebot_hse.Application.Notifications.Snapshot.{Parcel, made, send_parcel, deliver_each}
use rolebot_hse.Application.Notifications.Marking.{
  IsApart, IsDone, Covers, Progress, marked, marked-SameGame, marked-Covers, mem-marked,
  identities-claim_delivery,
}

module _ {S : Type 0} (gateways : Gateways S) where
  pub deliver_all-IsApart :
      (last : Option String) (letters : List Letter) (w : State S)
      → IsApart w (deliver_all gateways last letters w).1
  unfolding deliver_all
  deliver_all-IsApart last [] w = (refl, refl, refl)
  deliver_all-IsApart last (letter ∷ letters) w =
      by_sending (gateways.transport w.rest.attempts letter) refl
        (deliver_all-IsApart (some letter.request_id) letters (tried letter Sending.delivered w))
    where
      by_sending :
          (sending : Sending)
          → gateways.transport w.rest.attempts letter ≡ sending
          → IsApart w
              (deliver_all gateways
                (some letter.request_id)
                letters
                (tried letter Sending.delivered w)).1
          → IsApart w (deliver_all gateways last (letter ∷ letters) w).1
      by_sending Sending.delivered h rest = rw h rest
      by_sending Sending.unreachable h rest = rw h (refl, refl, refl)
      by_sending Sending.failed h rest = rw h (refl, refl, refl)

module _ {S : Type 0} (gateways : Gateways S) (now : Datetime) (id : String) where
  -- The state after the two markers.
  abbrev pub marked_state : String → String → Identity → String → Event → State S → State S
  marked_state op entry to request_id e w =
      let rows = put id (marked now op entry e) w.events.rows in
      with_users (with_events w rows) (claim_delivery to request_id main_menu (user_rows w)).0

  pub mark_and_claim :
      (op entry : String) (to : Identity) (request_id : String) (reached : Bool) (w : State S)
      (e : Event)
      → get id w.events.rows ≡ some e
      → (change_events (mark_participant_removal_delivered now id op entry)
            >> claim to request_id main_menu
            >> pure reached)
          w
        ≡ (ok reached, marked_state op entry to request_id e w)
  unfolding mark_participant_removal_delivered
  mark_and_claim op entry to request_id reached w e g =
      ap
        (λ x.
          continue (λ _. pure reached)
            (continue (λ _. claim to request_id main_menu) (changed w x)))
        (on_event_or_raise_found id (marked now op entry) w.events.rows e g)

  marked_state-Progress :
      (op entry : String) (to : Identity) (request_id : String) (w : State S) (e : Event)
      → Progress id e w (marked_state op entry to request_id e w)
  marked_state-Progress op entry to request_id w e = record {
    event = marked now op entry e;
    stored = get-put_self id (marked now op entry e) w.events.rows;
    same = marked-SameGame now op entry e;
    covers = marked-Covers now op entry e;
    registrations = refl;
    identities = identities-claim_delivery to request_id main_menu (user_rows w);
  }

  -- What the turn of the loop does behind the letters.
  abbrev pub after_letters :
      String → String → Identity → Bool × Option String → Effect (State S) Bool
  after_letters op entry to (reached, last) =
      change_events (mark_participant_removal_delivered now id op entry)
      >> claim to (or_else last "") main_menu
      >> pure reached

  after_letters-Progress :
      (op entry : String) (to : Identity) (x : Bool × Option String) (w s w' : State S) (r : Bool)
      (e : Event)
      → IsApart w s
      → get id w.events.rows ≡ some e
      → e.last_participant_removal_operation_id ≡ some op
      → after_letters op entry to x s ≡ (ok r, w')
      → (p : Progress id e w w') × (mem entry p.event.participant_removal_notified_keys ≡ true)
  unfolding marked_state-Progress
  after_letters-Progress op entry to (reached, last) w s w' r e a g l h =
      let g' : get id s.events.rows ≡ some e = rw (a.0) g in
      let m = mark_and_claim op entry to (or_else last "") reached s e g' in
      let end : marked_state op entry to (or_else last "") e s ≡ w' = ap (λ p. p.1) (sym m ∙ h) in
      let p = marked_state-Progress op entry to (or_else last "") s e in
      rw (← end) (
        record {
          event = p.event;
          stored = p.stored;
          same = p.same;
          covers = p.covers;
          registrations = a.1;
          identities = p.identities ∙ ap (λ users. map local_identity (values (rows_in users))) a.2;
        },
        mem-marked now op entry e l,
      )

  pub send_parcel-Progress :
      (op entry : String) (parcel : Parcel) (w w' : State S) (r : Bool) (e : Event)
      → send_parcel gateways now id op entry parcel w ≡ (ok r, w')
      → get id w.events.rows ≡ some e
      → e.last_participant_removal_operation_id ≡ some op
      → (p : Progress id e w w') × (mem entry p.event.participant_removal_notified_keys ≡ true)
  unfolding send_parcel
  send_parcel-Progress op entry parcel w w' r e h g l = by_letters parcel.letters h
    where
      by_letters :
          (letters : Result (List Letter))
          → (made letters >>= λ ls.
                deliver_all gateways none ls >>= after_letters op entry parcel.to)
              w
            ≡ (ok r, w')
          → (p : Progress id e w w') × (mem entry p.event.participant_removal_notified_keys ≡ true)
      by_letters (err x) k = cc
      by_letters (ok ls) k =
          let (x, s, p, q) =
            continue-ok (after_letters op entry parcel.to) (deliver_all gateways none ls w) r w'
              k in
          after_letters-Progress op entry parcel.to x w s w' r e
            (subst (λ v. IsApart w v) (ap (λ z. z.1) p) (deliver_all-IsApart gateways none ls w)) g
            l q

  Progress-refl : (e : Event) (w : State S) → get id w.events.rows ≡ some e → Progress id e w w
  Progress-refl e w g = record {
    event = e;
    stored = g;
    same = refl;
    covers = λ k h. h;
    registrations = refl;
    identities = refl;
  }

  Progress-trans :
      (e : Event) (w v u : State S) (p : Progress id e w v)
      → Progress id p.event v u
      → Progress id e w u
  Progress-trans e w v u p q = record {
    event = q.event;
    stored = q.stored;
    same =
        q.same
        ∙ ap {A = Event}
            (λ x. record x {
              participant_removal_notified_keys = q.event.participant_removal_notified_keys;
              updated_at = q.event.updated_at;
            })
            p.same;
    covers = λ k h. q.covers k (p.covers k h);
    registrations = q.registrations ∙ p.registrations;
    identities = q.identities ∙ p.identities;
  }

  pub Progress-called :
      (op : String) (e : Event) (w w' : State S) (p : Progress id e w w')
      → e.last_participant_removal_operation_id ≡ some op
      → p.event.last_participant_removal_operation_id ≡ some op
  Progress-called op e w w' p l = ap (λ x. x.last_participant_removal_operation_id) p.same ∙ l

  Covers-cons :
      (entry : String) (notified keys : List String)
      → mem entry keys ≡ true
      → Covers notified keys
      → Covers (entry ∷ notified) keys
  Covers-cons entry notified keys m c k h = ground (arith, string_eq.beq_iff k entry, c k)

  pub deliver_each-Progress :
      (op : String) (notified : List String) (n m : ℕ) (entries : List (String × Option Parcel))
      (w w' : State S) (e : Event)
      → deliver_each gateways now id op notified n entries w ≡ (ok m, w')
      → get id w.events.rows ≡ some e
      → e.last_participant_removal_operation_id ≡ some op
      → Covers notified e.participant_removal_notified_keys
      → (p : Progress id e w w') × IsDone entries p.event.participant_removal_notified_keys
  unfolding deliver_each Progress-refl Progress-trans
  deliver_each-Progress op notified n m [] w w' e h g l c =
      rw (← ap (λ x. x.1) h) (Progress-refl e w g, tt)
  deliver_each-Progress op notified n m ((entry, none) ∷ entries) w w' e h g l c =
      deliver_each-Progress op notified n m entries w w' e h g l c
  deliver_each-Progress op notified n m ((entry, some parcel) ∷ entries) w w' e h g l c =
      elim (Bool-cases (mem entry notified)) [
        | inl old ↦
            let (p, d) =
              deliver_each-Progress op notified n m entries w w' e (rw (old, deliver_each) at h) g l
                c in
            (p, (p.covers entry (c entry old), d))
        | inr new ↦
            let (r, s, sent, later) =
              continue-ok
                (λ r.
                  deliver_each gateways now id op (entry ∷ notified) (if r then suc n else n)
                    entries)
                (send_parcel gateways now id op entry parcel w) m w'
                (rw (new, deliver_each) at h) in
            let (p, done) = send_parcel-Progress op entry parcel w s r e sent g l in
            let (q, d) =
              deliver_each-Progress op (entry ∷ notified) (if r then suc n else n) m entries s w'
                p.event later p.stored (Progress-called op e w s p l)
                (Covers-cons entry notified p.event.participant_removal_notified_keys done
                  (λ k i. p.covers k (c k i))) in
            (Progress-trans e w s w' p q, (q.covers entry done, d))
      ]

  pub deliver_each-IsDone :
      (op : String) (notified : List String) (n : ℕ) (entries : List (String × Option Parcel))
      (w : State S)
      → IsDone entries notified
      → deliver_each gateways now id op notified n entries w ≡ (ok n, w)
  unfolding deliver_each
  deliver_each-IsDone op notified n [] w d = refl
  deliver_each-IsDone op notified n ((entry, none) ∷ entries) w d =
      deliver_each-IsDone op notified n entries w d
  deliver_each-IsDone op notified n ((entry, some parcel) ∷ entries) w d =
      rw (d.0, deliver_each) (deliver_each-IsDone op notified n entries w d.1)
