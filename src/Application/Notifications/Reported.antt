-- ===== src/Application/Notifications/Reported.antt =====
-- Nobody is told of the own signup or confirmation, under whichever profile.
use mathlib.Core.Path.{subst}
use rolebot_hse.Base.{
  ◌≡◌, refl, sym, ◌∙◌, inl, inr, ℕ, suc, String, Bool, true, false, Bool-cases, Option, none, some,
  List, [], ◌∷◌, ◌++◌, mem, any_of, keep_if, arith, nat_eq, pair_eq, string_eq, option_eq, beq_refl,
  ◌==◌, ◌&&◌, if◌then◌else◌,
}
use rolebot_hse.Errors.{Result, ok, err}
use rolebot_hse.Dict.{get, adjust}
use rolebot_hse.Domain.Enums.{platform_eq, Operation, operation_eq, attendance_eq}
use rolebot_hse.Domain.Event.{Event}
use rolebot_hse.Domain.User.{Identity, Button, UserBase, User, with_base, local_identity}
use rolebot_hse.Domain.Registration.{Registration}
use rolebot_hse.Domain.Command.{OrderedRegistrationCommand}
use rolebot_hse.Domain.Queues.{answer_capacity}
use rolebot_hse.Store.Users.{
  find_linked, claim_found, claim_delivery, global_identities, identities_for_local_user,
}
use rolebot_hse.Store.Users.Links.{IsKeyed, get-IsKeyed}
use rolebot_hse.Application.Effects.{Effect, ◌>>=◌, continue}
use rolebot_hse.Application.Support.{Sending}
use rolebot_hse.Application.Mutations.{UserRows}
use rolebot_hse.Application.Notifications.{
  Letter, State, Library, Gateways, rows_in, was_told, found, deliver,
}
use rolebot_hse.Application.Notifications.Masters.{Master}
use rolebot_hse.Application.Notifications.Participation.{
  Report, report_id, report_letter, was_reported, report_to, report_each, report_of, report_with,
  report_at, expected_status, report_on, report_key, notify_masters_of_participation,
}

both_values : (b : Bool) → b ≡ true → b ≡ false → ⊥
both_values b h k = cc

any_of-mem :
    (p : Identity → Bool) (x : Identity) (xs : List Identity)
    → mem x xs ≡ true
    → p x ≡ true
    → any_of p xs ≡ true
any_of-mem p x [] m h = cc
any_of-mem p x (y ∷ ys) m h = ground (arith, pair_eq.beq_iff x y, any_of-mem p x ys)

mem-append_right :
    (k : Identity) (xs ys : List Identity) → mem k ys ≡ true → mem k (xs ++ ys) ≡ true
mem-append_right k [] ys h = h
mem-append_right k (x ∷ xs) ys h = ground (arith, mem-append_right k xs ys h)

mem_head : (x : Identity) (xs : List Identity) → mem x (x ∷ xs) ≡ true
mem_head x xs = rw (mem, beq_refl x)

mem-global_identities :
    (user : User) (rows : UserRows) → mem (local_identity user) (global_identities user rows) ≡ true
unfolding global_identities
mem-global_identities user rows = by_linked (find_linked user rows)
  where
    by_linked :
        (o : Option User)
        → mem (local_identity user) (elim o [
          | none ↦ local_identity user ∷ []
          | some linked ↦ local_identity user ∷ local_identity linked ∷ []
        ])
          ≡ true
    by_linked none = mem_head (local_identity user) []
    by_linked (some linked) = mem_head (local_identity user) (local_identity linked ∷ [])

-- A profile is among those of its own person.
mem-identities_for_local_user :
    (users : Option UserRows) (identity : Identity)
    → IsKeyed (rows_in users)
    → mem identity (identities_for_local_user users identity) ≡ true
unfolding identities_for_local_user
mem-identities_for_local_user none identity k = mem_head identity []
mem-identities_for_local_user (some rows) identity k = by_user (get identity rows) refl
  where
    by_user :
        (o : Option User)
        → get identity rows ≡ o
        → mem identity (elim o [ none ↦ identity ∷ [] | some user ↦ global_identities user rows ])
          ≡ true
    by_user none g = mem_head identity []
    by_user (some user) g =
        subst (λ i. mem i (global_identities user rows) ≡ true) (get-IsKeyed identity rows user k g)
          (mem-global_identities user rows)

IsKeyed-adjust :
    (identity : Identity) (f : UserBase → UserBase) (rows : UserRows)
    → IsKeyed rows
    → IsKeyed (adjust identity (with_base f) rows)
IsKeyed-adjust identity f [] k = tt
IsKeyed-adjust identity f ((i, User.telegram t) ∷ rows) k =
    elim (Bool-cases (pair_eq.beq i identity)) [
      | inl e ↦ rw e k
      | inr e ↦ rw e (k.0, IsKeyed-adjust identity f rows k.1)
    ]
IsKeyed-adjust identity f ((i, User.vk v) ∷ rows) k = elim (Bool-cases (pair_eq.beq i identity)) [
  | inl e ↦ rw e k
  | inr e ↦ rw e (k.0, IsKeyed-adjust identity f rows k.1)
]

IsKeyed-claim_delivery :
    (identity : Identity) (request_id : String) (buttons : List Button) (rows : UserRows)
    → IsKeyed rows
    → IsKeyed (claim_delivery identity request_id buttons rows).0
unfolding claim_delivery
IsKeyed-claim_delivery identity request_id buttons rows k = by_user (get identity rows)
  where
    by_user : (o : Option User) → IsKeyed (claim_found identity request_id buttons rows o).0
    by_user none = k
    by_user (some user) = elim (Bool-cases (was_told request_id user)) [
      | inl e ↦ rw e k
      | inr e ↦ rw e (IsKeyed-adjust identity _ rows k)
    ]

-- The attempts to send a letter to this profile.
abbrev pub letters_to : {S : Type 0} → Identity → State S → List (Letter × Sending)
letters_to i w = keep_if (λ attempt. attempt.0.to == i) w.rest.attempts

-- A master of whom no profile was seen has not a profile that was.
not_own :
    (i identity : Identity) (seen identities : List Identity)
    → mem identity identities ≡ true
    → mem i seen ≡ true
    → any_of (λ j. mem j seen) identities ≡ false
    → pair_eq.beq identity i ≡ false
not_own i identity seen identities own m new = elim (Bool-cases (pair_eq.beq identity i)) [
  | inr apart ↦ apart
  | inl same ↦
      let e = (pair_eq.beq_iff identity i).0 same in
      absurd (
        both_values _
          (any_of-mem (λ j. mem j seen) identity identities own
            (subst (λ j. mem j seen ≡ true) (sym e) m))
          new)
]

continue-apart :
    {S A : Type 0} (i : Identity) (f : Bool → Effect (State S) A) (x : Result Bool × State S)
    (w : State S)
    → (letters_to i x.1 ≡ letters_to i w) × IsKeyed (rows_in x.1.users)
    → ((b : Bool) (v : State S)
        → IsKeyed (rows_in v.users)
        → letters_to i (f b v).1 ≡ letters_to i v)
    → letters_to i (continue f x).1 ≡ letters_to i w
continue-apart i f (ok b, v) w h rest = rest b v h.1 ∙ h.0
continue-apart i f (err e, v) w h rest = h.0

module _ {S : Type 0} (gateways : Gateways S) where
  report_to-apart :
      (i identity : Identity) (report : Report) (request_id : String) (w : State S)
      → IsKeyed (rows_in w.users)
      → pair_eq.beq identity i ≡ false
      → (letters_to i (report_to gateways report identity request_id w).1 ≡ letters_to i w)
        × IsKeyed (rows_in (report_to gateways report identity request_id w).1.users)
  unfolding report_to deliver
  report_to-apart i identity report request_id w k apart =
      by_sending
        (gateways.transport w.rest.attempts (report_letter gateways report identity request_id))
        refl
    where
      by_sending :
          (sending : Sending)
          → gateways.transport w.rest.attempts (report_letter gateways report identity request_id)
            ≡ sending
          → (letters_to i (report_to gateways report identity request_id w).1 ≡ letters_to i w)
            × IsKeyed (rows_in (report_to gateways report identity request_id w).1.users)
      by_sending Sending.delivered e = rw e (
        rw apart refl,
        IsKeyed-claim_delivery identity request_id report.buttons (rows_in w.users) k,
      )
      by_sending Sending.unreachable e = rw e (rw apart refl, k)
      by_sending Sending.failed e = rw e (rw apart refl, k)

  report_each-apart :
      (i : Identity) (report : Report) (seen : List Identity) (n : ℕ) (masters : List Master)
      (w : State S)
      → IsKeyed (rows_in w.users)
      → mem i seen ≡ true
      → letters_to i (report_each gateways report seen n masters w).1 ≡ letters_to i w
  unfolding report_each
  report_each-apart i report seen n [] w k m = refl
  report_each-apart i report seen n ((identity, profile) ∷ masters) w k m =
      let identities = identities_for_local_user w.users identity in
      elim (Bool-cases (any_of (λ j. mem j seen) identities)) [
        | inl known ↦ rw (known, report_each) (report_each-apart i report seen n masters w k m)
        | inr new ↦
            elim (Bool-cases (
              was_reported report.event_id report.participant_key (report_id report identities)
                w)) [
                  | inl old ↦
                      rw (new, old, report_each)
                        (report_each-apart i report (identities ++ seen) n masters w k
                          (mem-append_right i identities seen m))
                  | inr fresh ↦
                      rw (new, fresh, report_each)
                        (continue-apart i _ _ w
                          (report_to-apart i identity report (report_id report identities) w k (
                            not_own i identity seen identities
                              (mem-identities_for_local_user w.users identity k) m new))
                          (λ reached v kept.
                            report_each-apart i report (identities ++ seen)
                              (if reached then suc n else n) masters v kept
                              (mem-append_right i identities seen m)))
                ]
      ]

module _ {S : Type 0} (library : Library) (gateways : Gateways S) where
  abbrev own_profiles : OrderedRegistrationCommand → State S → List Identity
  own_profiles c w = identities_for_local_user w.users (c.platform, c.platform_user_id)

  report_at-apart :
      (c : OrderedRegistrationCommand) (e : Event) (key : String) (r : Registration)
      (position : Option ℕ) (i : Identity) (w : State S)
      → IsKeyed (rows_in w.users)
      → mem i (own_profiles c w) ≡ true
      → letters_to i (report_at library gateways c e key r position w).1 ≡ letters_to i w
  report_at-apart c e key r none i w k m = refl
  report_at-apart c e key r (some position) i w k m = by_capacity (answer_capacity e r.answer_id)
    where
      by_capacity :
          (x : Result ℕ)
          → letters_to i (report_with library gateways c e key r position x w).1 ≡ letters_to i w
      by_capacity (err y) = refl
      by_capacity (ok capacity) =
          report_each-apart gateways i (report_of library gateways c e key r position capacity)
            (own_profiles c w) 0 _ w k m

  report_on-apart :
      (c : OrderedRegistrationCommand) (e : Event) (key : String) (o : Option Registration)
      (i : Identity) (w : State S)
      → IsKeyed (rows_in w.users)
      → mem i (own_profiles c w) ≡ true
      → letters_to i (report_on library gateways c e key o w).1 ≡ letters_to i w
  report_on-apart c e key none i w k m = refl
  report_on-apart c e key (some r) i w k m =
      elim (Bool-cases (
        r.last_operation_id == c.operation_id
        && r.attendance_status == expected_status c.operation)) [
          | inl h ↦ rw h (report_at-apart c e key r _ i w k m)
          | inr h ↦ rw h refl
        ]

  report_key-apart :
      (c : OrderedRegistrationCommand) (e : Event) (key : Option String) (i : Identity)
      (w : State S)
      → IsKeyed (rows_in w.users)
      → mem i (own_profiles c w) ≡ true
      → letters_to i (report_key library gateways c e key w).1 ≡ letters_to i w
  report_key-apart c e none i w k m = refl
  report_key-apart c e (some key) i w k m = report_on-apart c e key _ i w k m

  -- A player who leads the game is not told of the own signup or confirmation: however the report
  -- ends, no letter of it goes to a profile of the player, in a store where each user stands under
  -- the own identity.
  pub notify_masters_of_participation-apart :
      (c : OrderedRegistrationCommand) (i : Identity) (w : State S)
      → IsKeyed (rows_in w.users)
      → mem i (identities_for_local_user w.users (c.platform, c.platform_user_id)) ≡ true
      → letters_to i (notify_masters_of_participation library gateways c w).1 ≡ letters_to i w
  unfolding notify_masters_of_participation
  notify_masters_of_participation-apart c i w k m =
      elim (Bool-cases (mem c.operation (Operation.enlist ∷ Operation.confirm ∷ []))) [
        | inl own ↦ rw own (by_event (get c.event_id w.events.rows))
        | inr other ↦ rw other refl
      ]
    where
      by_event :
          (o : Option Event)
          → letters_to i ((found o >>= λ e. report_key library gateways c e c.participant_key) w).1
            ≡ letters_to i w
      by_event none = refl
      by_event (some e) = report_key-apart c e c.participant_key i w k m
