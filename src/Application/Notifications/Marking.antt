-- ===== src/Application/Notifications/Marking.antt =====
-- What the marks of a delivered entry do to the event and the users.
use rolebot_hse.Base.{
  ◌≡◌, refl, String, Bool, true, false, Option, none, some, List, [], ◌∷◌, ◌++◌, map, mem, arith,
  string_eq, option_eq, nat_eq, pair_eq, beq_refl, option_beq_iff, not, ◌&&◌, ◌==◌, if◌then◌else◌,
}
use rolebot_hse.Dict.{get, values, adjust}
use rolebot_hse.Domain.Enums.{platform_eq}
use rolebot_hse.Domain.Event.{Datetime, Event}
use rolebot_hse.Domain.User.{Identity, Button, UserBase, User, local_identity, with_base}
use rolebot_hse.Store.Users.{claim_found, claim_delivery}
use rolebot_hse.Application.Mutations.{UserRows}
use rolebot_hse.Application.Notifications.{State, identities_in}
use rolebot_hse.Application.Notifications.Snapshot.{Parcel}

-- Everything but the transport.
abbrev pub IsApart : {S : Type 0} → State S → State S → Type 0
IsApart w w' = (w'.events ≡ w.events) × (w'.registrations ≡ w.registrations) × (w'.users ≡ w.users)

-- Every entry that has a parcel is among the keys.
abbrev pub IsDone : List (String × Option Parcel) → List String → Type 0
IsDone [] keys = Unit {0}
IsDone ((entry, none) ∷ entries) keys = IsDone entries keys
IsDone ((entry, some _) ∷ entries) keys = (mem entry keys ≡ true) × IsDone entries keys

-- Every key of the first list is in the second.
abbrev pub Covers : List String → List String → Type 0
Covers keys others = (k : String) → mem k keys ≡ true → mem k others ≡ true

-- The event but for its marks.
abbrev pub SameGame : Event → Event → Type 0
SameGame e e' = e' ≡ record e {
  participant_removal_notified_keys = e'.participant_removal_notified_keys;
  updated_at = e'.updated_at;
}

-- What the marks of a run leave: the same game with more marks, the same registrations, and users
-- with the same identities.
pub record Progress {S : Type 0} (id : String) (e : Event) (w w' : State S) : Type 0 where
  pub event : Event
  pub stored : get id w'.events.rows ≡ some event
  pub same : SameGame e event
  pub covers : Covers e.participant_removal_notified_keys event.participant_removal_notified_keys
  pub registrations : w'.registrations ≡ w.registrations
  pub identities : identities_in w' ≡ identities_in w

-- The event after `mark_participant_removal_delivered`.
abbrev pub marked : Datetime → String → String → Event → Event
marked now operation_id entry e =
    if e.last_participant_removal_operation_id == some operation_id
      && not (mem entry e.participant_removal_notified_keys)
    then record e {
      participant_removal_notified_keys = e.participant_removal_notified_keys ++ entry ∷ [];
      updated_at = now;
    }
    else e

pub mem-append : (k : String) (xs ys : List String) → mem k xs ≡ true → mem k (xs ++ ys) ≡ true
mem-append k [] ys h = cc
mem-append k (x ∷ xs) ys h = ground (arith, mem-append k xs ys)

mem-append_last : (k : String) (xs : List String) → mem k (xs ++ k ∷ []) ≡ true
mem-append_last k [] = ground (arith, beq_refl k)
mem-append_last k (x ∷ xs) = ground (arith, mem-append_last k xs)

pub marked-SameGame :
    (now : Datetime) (op entry : String) (e : Event) → SameGame e (marked now op entry e)
marked-SameGame now op entry e = by_test (
    e.last_participant_removal_operation_id == some op
    && not (mem entry e.participant_removal_notified_keys))
  where
    by_test :
        (b : Bool)
        → SameGame e (
            if b
            then record e {
              participant_removal_notified_keys = e.participant_removal_notified_keys ++ entry ∷ [];
              updated_at = now;
            }
            else e)
    by_test true = refl
    by_test false = refl

pub marked-Covers :
    (now : Datetime) (op entry : String) (e : Event)
    → Covers e.participant_removal_notified_keys
        (marked now op entry e).participant_removal_notified_keys
marked-Covers now op entry e k h =
    ground (arith, mem-append k e.participant_removal_notified_keys (entry ∷ []))

pub mem-marked :
    (now : Datetime) (op entry : String) (e : Event)
    → e.last_participant_removal_operation_id ≡ some op
    → mem entry (marked now op entry e).participant_removal_notified_keys ≡ true
mem-marked now op entry e h = ground (
  arith,
  mem-append_last entry e.participant_removal_notified_keys,
  option_beq_iff ⦃e = string_eq⦄ e.last_participant_removal_operation_id (some op),
)

identities-adjust :
    (identity : Identity) (f : UserBase → UserBase) (rows : UserRows)
    → map local_identity (values (adjust identity (with_base f) rows))
      ≡ map local_identity (values rows)
identities-adjust identity f [] = refl
identities-adjust identity f ((i, User.telegram t) ∷ rows) =
    ground (arith, identities-adjust identity f rows)
identities-adjust identity f ((i, User.vk v) ∷ rows) =
    ground (arith, identities-adjust identity f rows)

pub identities-claim_delivery :
    (identity : Identity) (request_id : String) (buttons : List Button) (rows : UserRows)
    → map local_identity (values (claim_delivery identity request_id buttons rows).0)
      ≡ map local_identity (values rows)
unfolding claim_delivery
identities-claim_delivery identity request_id buttons rows = by_user (get identity rows)
  where
    by_user :
        (o : Option User)
        → map local_identity (values (claim_found identity request_id buttons rows o).0)
          ≡ map local_identity (values rows)
    by_user none = refl
    by_user (some user) = ground (
      arith,
      identities-adjust identity
          (λ u. record u {
            last_delivery_operation_id = some request_id;
            last_bot_buttons = buttons;
          })
          rows,
    )
