-- ===== src/Application/Notifications/Claims.antt =====
-- What the claim of a delivery does to the rows of the users, in a store without repeated rows.
use rolebot_hse.Base.{
  ◌≡◌, refl, ap, ◌∙◌, String, true, false, none, some, List, [], ◌∷◌, ◌++◌, mem, arith, nat_eq,
  pair_eq, string_eq, option_eq, beq_refl,
}
use rolebot_hse.Dict.{get, adjust}
use rolebot_hse.Domain.Enums.{platform_eq, operation_eq}
use rolebot_hse.Domain.User.{Identity, Button, User, with_base, local_identity}
use rolebot_hse.Store.Users.{claim_delivery}
use rolebot_hse.Application.Mutations.{UserRows}
use rolebot_hse.Application.Notifications.{was_told}

-- Each row stands under the identity of its user, and no identity has two rows or is among those
-- that came before.
abbrev pub IsFresh : List Identity → UserRows → Type 0
IsFresh before [] = Unit {0}
IsFresh before ((identity, user) ∷ rows) =
    (local_identity user ≡ identity)
    × (mem identity before ≡ false)
    × IsFresh (identity ∷ before) rows

-- The rows are those of identities in the list.
abbrev pub IsWithin : UserRows → List Identity → Type 0
IsWithin done before = (i : Identity) → mem i before ≡ false → get i done ≡ none

-- What `claim_delivery` makes of a user.
abbrev pub claimed : String → List Button → User → User
claimed request_id buttons =
    with_base
      (λ u. record u { last_delivery_operation_id = some request_id; last_bot_buttons = buttons })

pub get-behind :
    (identity : Identity) (user : User) (done rows : UserRows)
    → get identity done ≡ none
    → get identity (done ++ (identity, user) ∷ rows) ≡ some user
get-behind identity user [] rows h = rw (beq_refl identity)
get-behind identity user ((i, u) ∷ done) rows h = ground (arith, get-behind identity user done rows)

pub adjust-behind :
    (identity : Identity) (f : User → User) (user : User) (done rows : UserRows)
    → get identity done ≡ none
    → adjust identity f (done ++ (identity, user) ∷ rows) ≡ done ++ (identity, f user) ∷ rows
adjust-behind identity f user [] rows h = rw (beq_refl identity)
adjust-behind identity f user ((i, u) ∷ done) rows h =
    ground (arith, adjust-behind identity f user done rows)

pub append-one :
    (done : UserRows) (x : Identity × User) (rows : UserRows)
    → done ++ x ∷ rows ≡ (done ++ x ∷ []) ++ rows
append-one [] x rows = refl
append-one (y ∷ done) x rows = ap (λ l. y ∷ l) (append-one done x rows)

pub get-append_none :
    (i : Identity) (done : UserRows) (identity : Identity) (user : User)
    → get i done ≡ none
    → pair_eq.beq identity i ≡ false
    → get i (done ++ (identity, user) ∷ []) ≡ none
get-append_none i [] identity user h k = rw k
get-append_none i ((j, v) ∷ done) identity user h k =
    ground (arith, get-append_none i done identity user)

pub IsWithin-append :
    (done : UserRows) (before : List Identity) (identity : Identity) (user : User)
    → IsWithin done before
    → IsWithin (done ++ (identity, user) ∷ []) (identity ∷ before)
IsWithin-append done before identity user h i m =
    get-append_none i done identity user (h i (ground (arith, m)))
      (ground (arith, m, pair_eq.beq_iff i identity, pair_eq.beq_iff identity i))

pub claim_delivery-behind :
    (identity : Identity) (request_id : String) (buttons : List Button) (user : User)
    (done rows : UserRows)
    → get identity done ≡ none
    → was_told request_id user ≡ false
    → (claim_delivery identity request_id buttons (done ++ (identity, user) ∷ rows)).0
      ≡ done ++ (identity, claimed request_id buttons user) ∷ rows
unfolding claim_delivery
claim_delivery-behind identity request_id buttons user done rows h new =
    rw (get-behind identity user done rows h)
      (rw new (adjust-behind identity (claimed request_id buttons) user done rows h))

pub local_identity-claimed :
    (request_id : String) (buttons : List Button) (user : User)
    → local_identity (claimed request_id buttons user) ≡ local_identity user
local_identity-claimed request_id buttons (User.telegram t) = refl
local_identity-claimed request_id buttons (User.vk v) = refl

pub was_told-claimed :
    (request_id : String) (buttons : List Button) (user : User)
    → was_told request_id (claimed request_id buttons user) ≡ true
was_told-claimed request_id buttons (User.telegram t) = beq_refl request_id
was_told-claimed request_id buttons (User.vk v) = beq_refl request_id

-- The rows after the claim for one of them.
pub rows_after :
    (identity : Identity) (user : User) (request_id : String) (buttons : List Button)
    (done rows before after : UserRows)
    → local_identity user ≡ identity
    → get identity done ≡ none
    → was_told request_id user ≡ false
    → after ≡ (claim_delivery (local_identity user) request_id buttons before).0
    → before ≡ done ++ (identity, user) ∷ rows
    → after ≡ (done ++ (identity, claimed request_id buttons user) ∷ []) ++ rows
rows_after identity user request_id buttons done rows before after l g new c u =
    c
    ∙ ap (λ i. (claim_delivery i request_id buttons before).0) l
    ∙ ap (λ r. (claim_delivery identity request_id buttons r).0) u
    ∙ claim_delivery-behind identity request_id buttons user done rows g new
    ∙ append-one done (identity, claimed request_id buttons user) rows
