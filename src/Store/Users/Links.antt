-- ===== src/Store/Users/Links.antt =====
-- A link between two profiles is found from both sides.
use rolebot_hse.Base.{
  ℕ, String, ◌≡◌, refl, ap, true, Option, none, some, List, [], ◌∷◌, arith, string_eq, nat_eq,
  option_eq, pair_eq, beq_refl, option_beq_iff,
}
use rolebot_hse.Dict.{get}
use rolebot_hse.Domain.Enums.{Platform, platform_eq}
use rolebot_hse.Domain.User.{Identity, TelegramUser, User, local_identity, handle_of}
use rolebot_hse.Store.Users.{
  Rows, claims, owners, find_linked, sole, sole_owner, if_handle, linked_telegram, linked_vk,
}

-- Every row stands under the identity of its user.
abbrev pub IsKeyed : Rows → Type 0
IsKeyed [] = Unit {0}
IsKeyed ((identity, user) ∷ rows) = (identity ≡ local_identity user) × IsKeyed rows

pub get-IsKeyed :
    (identity : Identity) (rows : Rows) (user : User)
    → IsKeyed rows
    → get identity rows ≡ some user
    → local_identity user ≡ identity
get-IsKeyed identity [] user k h = cc
get-IsKeyed identity ((i, u) ∷ rows) user k h =
    ground (arith, pair_eq.beq_iff i identity, get-IsKeyed identity rows user k.1, k.0)

no_owners :
    (vk_id : ℕ) (handle : String) (rows : Rows) (t : TelegramUser)
    → claims vk_id handle t ≡ true
    → get (Platform.telegram, t.tg_id) rows ≡ some (User.telegram t)
    → owners vk_id handle rows ≡ []
    → ⊥
unfolding owners
no_owners vk_id handle [] t c g e = cc
no_owners vk_id handle (((p, i), User.vk v) ∷ rows) t c g e =
    no_owners vk_id handle rows t c (ground arith) e
no_owners vk_id handle (((p, i), User.telegram s) ∷ rows) t c g e =
    ground
      (arith, no_owners vk_id handle rows t c, pair_eq.beq_iff (p, i) (Platform.telegram, t.tg_id))

-- A stored profile that makes a claim is the only one to make it.
sole_owner_stored :
    (vk_id : ℕ) (handle : String) (rows : Rows) (t o : TelegramUser)
    → claims vk_id handle t ≡ true
    → get (Platform.telegram, t.tg_id) rows ≡ some (User.telegram t)
    → owners vk_id handle rows ≡ o ∷ []
    → o ≡ t
unfolding owners
sole_owner_stored vk_id handle [] t o c g e = cc
sole_owner_stored vk_id handle (((p, i), User.vk v) ∷ rows) t o c g e =
    sole_owner_stored vk_id handle rows t o c (ground arith) e
sole_owner_stored vk_id handle (((p, i), User.telegram s) ∷ rows) t o c g e = ground (
  arith,
  no_owners vk_id handle rows t c,
  sole_owner_stored vk_id handle rows t o c,
  pair_eq.beq_iff (p, i) (Platform.telegram, t.tg_id),
)

owners_claim :
    (vk_id : ℕ) (handle : String) (rows : Rows) (o : TelegramUser) (os : List TelegramUser)
    → owners vk_id handle rows ≡ o ∷ os
    → claims vk_id handle o ≡ true
unfolding owners
owners_claim vk_id handle [] o os e = cc
owners_claim vk_id handle (((p, i), User.vk v) ∷ rows) o os e =
    owners_claim vk_id handle rows o os e
owners_claim vk_id handle (((p, i), User.telegram s) ∷ rows) o os e =
    ground (arith, owners_claim vk_id handle rows o os)

-- What the claim says of the two fields.
claims_fields :
    (vk_id : ℕ) (handle : String) (t : TelegramUser)
    → claims vk_id handle t ≡ true
    → (t.linked_vk_id ≡ some vk_id) × (t.telegram_handle ≡ some handle)
claims_fields vk_id handle t c = ground (
  arith,
  option_beq_iff ⦃e = nat_eq⦄ t.linked_vk_id (some vk_id),
  option_beq_iff ⦃e = string_eq⦄ t.telegram_handle (some handle),
)

-- A Telegram profile that finds a link is the lone owner, and the profile found has its handle.
telegram_link :
    (t : TelegramUser) (rows : Rows) (l : User)
    → find_linked (User.telegram t) rows ≡ some l
    → (vk_id : ℕ) × (handle : String) × (o : TelegramUser) × (claims vk_id handle t ≡ true)
      × (owners vk_id handle rows ≡ o ∷ [])
      × (get (Platform.vk, vk_id) rows ≡ some l)
      × (handle_of l ≡ some handle)
telegram_link t rows l h =
    by_fields t.linked_vk_id t.telegram_handle refl refl (unfold find_linked in h)
  where
    by_owners :
        (vk_id : ℕ) (handle : String) (os : List TelegramUser)
        → claims vk_id handle t ≡ true
        → owners vk_id handle rows ≡ os
        → sole_owner t.tg_id os (if_handle handle (get (Platform.vk, vk_id) rows)) ≡ some l
        → (vk_id : ℕ) × (handle : String) × (o : TelegramUser) × (claims vk_id handle t ≡ true)
          × (owners vk_id handle rows ≡ o ∷ [])
          × (get (Platform.vk, vk_id) rows ≡ some l)
          × (handle_of l ≡ some handle)
    by_owners vk_id handle [] c e q = cc
    by_owners vk_id handle (o ∷ []) c e q = (
      vk_id,
      handle,
      o,
      c,
      e,
      ground arith,
      ground (arith, option_beq_iff ⦃e = string_eq⦄ (handle_of l) (some handle)),
    )
    by_owners vk_id handle (o ∷ p ∷ os) c e q = cc

    by_fields :
        (a : Option ℕ) (b : Option String)
        → t.linked_vk_id ≡ a
        → t.telegram_handle ≡ b
        → linked_telegram t.tg_id a b rows ≡ some l
        → (vk_id : ℕ) × (handle : String) × (o : TelegramUser) × (claims vk_id handle t ≡ true)
          × (owners vk_id handle rows ≡ o ∷ [])
          × (get (Platform.vk, vk_id) rows ≡ some l)
          × (handle_of l ≡ some handle)
    by_fields none b p q r = cc
    by_fields (some a) none p q r = cc
    by_fields (some a) (some b) p q r =
        by_owners a b (owners a b rows)
          (ground (
            arith,
            option_beq_iff ⦃e = nat_eq⦄ t.linked_vk_id (some a),
            option_beq_iff ⦃e = string_eq⦄ t.telegram_handle (some b),
          ))
          refl r

-- In a store where each row stands under its user's own identity, a stored profile that finds a
-- linked profile is found from that one: links are symmetric, whichever side asks.
pub find_linked_symmetric :
    (rows : Rows) (user linked : User)
    → IsKeyed rows
    → get (local_identity user) rows ≡ some user
    → find_linked user rows ≡ some linked
    → find_linked linked rows ≡ some user
unfolding find_linked
find_linked_symmetric rows (User.telegram t) linked keyed stored h =
    let (vk_id, handle, o, c, e, g, same) = telegram_link t rows linked h in
    back linked vk_id handle o (get-IsKeyed (Platform.vk, vk_id) rows linked keyed g) same e
      (sole_owner_stored vk_id handle rows t o c stored e)
  where
    back :
        (l : User) (vk_id : ℕ) (handle : String) (o : TelegramUser)
        → local_identity l ≡ (Platform.vk, vk_id)
        → handle_of l ≡ some handle
        → owners vk_id handle rows ≡ o ∷ []
        → o ≡ t
        → find_linked l rows ≡ some (User.telegram t)
    back (User.telegram s) vk_id handle o i same e q = ground arith
    back (User.vk v) vk_id handle o i same e q =
        let id : v.vk_id ≡ vk_id = ap (λ (p : Identity). p.1) i in
        rw (same, id, e) (ap (λ x. some (User.telegram x)) q)
find_linked_symmetric rows (User.vk v) linked keyed stored h = by_handle v.telegram_handle refl h
  where
    by_owners :
        (handle : String) (os : List TelegramUser)
        → v.telegram_handle ≡ some handle
        → owners v.vk_id handle rows ≡ os
        → sole os ≡ some linked
        → find_linked linked rows ≡ some (User.vk v)
    by_owners handle [] p e q = cc
    by_owners handle (o ∷ []) p e q =
        let fields = claims_fields v.vk_id handle o (owners_claim v.vk_id handle rows o [] e) in
        let found : find_linked (User.telegram o) rows ≡ some (User.vk v) =
          rw (fields.0, fields.1, e) (rw (beq_refl o.tg_id, stored, p, beq_refl handle)) in
        ground (arith, q, found)
    by_owners handle (o ∷ _ ∷ _) p e q = cc

    by_handle :
        (b : Option String)
        → v.telegram_handle ≡ b
        → linked_vk v.vk_id b rows ≡ some linked
        → find_linked linked rows ≡ some (User.vk v)
    by_handle none p q = cc
    by_handle (some handle) p q = by_owners handle (owners v.vk_id handle rows) p refl q
