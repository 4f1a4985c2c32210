-- ===== src/Application/Notifications/Notified.antt =====
-- What a run of the loop of `notify` leaves of the users.
use rolebot_hse.Base.{
  ◌≡◌, refl, sym, ap, ◌∙◌, ℕ, suc, String, Bool, true, false, Bool-cases, inl, inr, List, [], ◌∷◌,
  ◌++◌, mem, arith, nat_eq, pair_eq, string_eq, option_eq, if◌then◌else◌,
}
use rolebot_hse.Errors.{ok}
use rolebot_hse.Dict.{values}
use rolebot_hse.Domain.Enums.{platform_eq, operation_eq}
use rolebot_hse.Domain.User.{Identity, User, local_identity}
use rolebot_hse.Store.Users.{claim_delivery}
use rolebot_hse.Application.Effects.{◌>>=◌, ◌>>◌}
use rolebot_hse.Application.Support.{Sending}
use rolebot_hse.Application.Mutations.{UserRows}
use rolebot_hse.Application.Notifications.{
  Letter, State, Gateways, was_told, deliver, user_rows, claim,
}
use rolebot_hse.Application.Notifications.Participants.{
  Notice, notification_id, users_with_keys, notify_each,
}
use rolebot_hse.Application.Notifications.Claims.{
  IsFresh, IsWithin, claimed, append-one, IsWithin-append, local_identity-claimed, was_told-claimed,
  rows_after,
}

module _ {S : Type 0} (gateways : Gateways S) (event_id op : String) (keys : List String)
    (notice : Notice) where
  abbrev is_chosen : User → Bool
  is_chosen user = mem (gateways.participant_key (local_identity user) event_id) keys

  -- The user after a run that told everybody.
  told_user : User → User
  told_user user =
      let request_id = notification_id op (local_identity user) in
      if is_chosen user
      then if was_told request_id user then user else claimed request_id notice.buttons user
      else user

  pub told_rows : UserRows → UserRows
  told_rows [] = []
  told_rows ((identity, user) ∷ rows) = (identity, told_user user) ∷ told_rows rows

  abbrev pub chosen : UserRows → List User
  chosen rows = users_with_keys gateways event_id keys (values rows)

  told_user-identity : (user : User) → local_identity (told_user user) ≡ local_identity user
  unfolding told_user
  told_user-identity user =
      ground (
        arith,
        local_identity-claimed (notification_id op (local_identity user)) notice.buttons user,
      )

  told_user-was_told :
      (user : User)
      → is_chosen user ≡ true
      → was_told (notification_id op (local_identity user)) (told_user user) ≡ true
  unfolding told_user
  told_user-was_told user h =
      elim (Bool-cases (was_told (notification_id op (local_identity user)) user)) [
        | inl old ↦ rw (h, old) old
        | inr new ↦
            rw (h, new)
              (was_told-claimed (notification_id op (local_identity user)) notice.buttons user)
      ]

  -- A second run over rows that a first one left.
  pub notify_each-told_rows :
      (n : ℕ) (rows : UserRows) (w : State S)
      → notify_each gateways op notice n (chosen (told_rows rows)) w ≡ (ok n, w)
  unfolding notify_each users_with_keys told_rows
  notify_each-told_rows n [] w = refl
  notify_each-told_rows n ((identity, user) ∷ rows) w = elim (Bool-cases (is_chosen user)) [
    | inl here ↦ rw (told_user-identity user) (
        rw here (
          rw (notify_each, told_user-identity user)
            (rw (told_user-was_told user here) (notify_each-told_rows n rows w))))
    | inr gone ↦ rw (told_user-identity user) (rw gone (notify_each-told_rows n rows w))
  ]

  abbrev letter_to : User → Letter
  letter_to user = record {
    to = local_identity user;
    request_id = notification_id op (local_identity user);
    text = notice.text;
    buttons = notice.buttons;
  }

  -- One turn for a user who was not told before, of a run that returned.
  notify_each-new :
      (n m : ℕ) (user : User) (users : List User) (w w' : State S)
      → was_told (notification_id op (local_identity user)) user ≡ false
      → notify_each gateways op notice n (user ∷ users) w ≡ (ok m, w')
      → (s : State S) × (k : ℕ) × (notify_each gateways op notice k users s ≡ (ok m, w'))
        × (s.events ≡ w.events)
        × (s.registrations ≡ w.registrations)
        × (user_rows s
            ≡ (claim_delivery
                (local_identity user)
                (notification_id op (local_identity user))
                notice.buttons
                (user_rows w)).0)
  unfolding notify_each
  notify_each-new n m user users w w' new h =
      by_sending (gateways.transport w.rest.attempts (letter_to user)) refl
        (rw (notify_each, new) at h)
    where
      by_sending :
          (sending : Sending)
          → gateways.transport w.rest.attempts (letter_to user) ≡ sending
          → (deliver gateways (letter_to user) >>= λ reached.
                claim
                  (local_identity user)
                  (notification_id op (local_identity user))
                  notice.buttons
                >> notify_each gateways op notice (if reached then suc n else n) users)
              w
            ≡ (ok m, w')
          → (s : State S) × (k : ℕ) × (notify_each gateways op notice k users s ≡ (ok m, w'))
            × (s.events ≡ w.events)
            × (s.registrations ≡ w.registrations)
            × (user_rows s
                ≡ (claim_delivery
                    (local_identity user)
                    (notification_id op (local_identity user))
                    notice.buttons
                    (user_rows w)).0)
      by_sending Sending.delivered e k = (_, _, rw e at k, refl, refl, refl)
      by_sending Sending.unreachable e k = (_, _, rw e at k, refl, refl, refl)
      by_sending Sending.failed e k = cc (rw e at k)

  told_user-gone : (user : User) → is_chosen user ≡ false → told_user user ≡ user
  unfolding told_user
  told_user-gone user h = rw h

  told_user-old :
      (user : User)
      → was_told (notification_id op (local_identity user)) user ≡ true
      → told_user user ≡ user
  unfolding told_user
  told_user-old user h = ground (arith, h)

  told_user-new :
      (user : User)
      → is_chosen user ≡ true
      → was_told (notification_id op (local_identity user)) user ≡ false
      → told_user user ≡ claimed (notification_id op (local_identity user)) notice.buttons user
  unfolding told_user
  told_user-new user h k = rw (h, k)

  -- What a run that returned left of the state that it found.
  abbrev Left : UserRows → State S → State S → Type 0
  Left rows w w' =
      (user_rows w' ≡ rows) × (w'.events ≡ w.events) × (w'.registrations ≡ w.registrations)

  Left-next :
      (done : UserRows) (identity : Identity) (user user' : User) (rows : UserRows)
      (w s w' : State S)
      → user' ≡ told_user user
      → s.events ≡ w.events
      → s.registrations ≡ w.registrations
      → Left ((done ++ (identity, user') ∷ []) ++ told_rows rows) s w'
      → Left (done ++ told_rows ((identity, user) ∷ rows)) w w'
  unfolding told_rows
  Left-next done identity user user' rows w s w' t a b l = (
    l.0
        ∙ sym (append-one done (identity, user') (told_rows rows))
        ∙ ap (λ x. done ++ (identity, x) ∷ told_rows rows) t,
    l.1 ∙ a,
    l.2 ∙ b,
  )

  pub notify_each-Left :
      (n m : ℕ) (before : List Identity) (done todo : UserRows) (w w' : State S)
      → IsFresh before todo
      → IsWithin done before
      → user_rows w ≡ done ++ todo
      → notify_each gateways op notice n (chosen todo) w ≡ (ok m, w')
      → Left (done ++ told_rows todo) w w'
  unfolding told_rows users_with_keys notify_each
  notify_each-Left n m before done [] w w' f i u h =
      let end : w ≡ w' = ap (λ x. x.1) h in
      (
        ap user_rows (sym end) ∙ u,
        ap (λ x. x.events) (sym end),
        ap (λ x. x.registrations) (sym end),
      )
  notify_each-Left n m before done ((identity, user) ∷ rows) w w' f i u h =
      elim (Bool-cases (is_chosen user)) [
        | inr gone ↦
            Left-next done identity user user rows w w w' (sym (told_user-gone user gone)) refl refl
              (notify_each-Left n m (identity ∷ before) (done ++ (identity, user) ∷ []) rows w w'
                f.2 (IsWithin-append done before identity user i)
                (u ∙ append-one done (identity, user) rows) (rw gone at h))
        | inl here ↦
            let h' : notify_each gateways op notice n (user ∷ chosen rows) w ≡ (ok m, w') =
              rw here at h in
            elim (Bool-cases (was_told (notification_id op (local_identity user)) user)) [
              | inl old ↦
                  Left-next done identity user user rows w w w' (sym (told_user-old user old)) refl
                    refl
                    (notify_each-Left n m (identity ∷ before) (done ++ (identity, user) ∷ []) rows w
                      w' f.2 (IsWithin-append done before identity user i)
                      (u ∙ append-one done (identity, user) rows) (rw (old, notify_each) at h'))
              | inr new ↦
                  let (s, k, later, a, b, c) = notify_each-new n m user (chosen rows) w w' new h' in
                  let user' =
                    claimed (notification_id op (local_identity user)) notice.buttons user in
                  Left-next done identity user user' rows w s w' (sym (told_user-new user here new))
                    a b
                    (notify_each-Left k m (identity ∷ before) (done ++ (identity, user') ∷ []) rows
                      s w' f.2 (IsWithin-append done before identity user' i)
                      (rows_after identity user _ notice.buttons done rows (user_rows w)
                        (user_rows s) f.0 (i identity f.1) new c u)
                      later)
            ]
      ]
