-- ===== src/Store/Users/Roles.antt =====
-- A delivery is claimed once, and what the privileged role of a user is after it was set or cleared.
use rolebot_hse.Base.{
  String, ◌≡◌, refl, false, Option, none, some, List, ◌==◌, string_eq, pair_eq, nat_eq, option_eq,
  arith, beq_refl, option_beq_iff, Bool-cases, inl, inr, if◌then◌else◌,
}
use rolebot_hse.Errors.{ok}
use rolebot_hse.Dict.{get, adjust, get-adjust}
use rolebot_hse.Domain.Enums.{platform_eq, PrivilegedRole, role_eq}
use rolebot_hse.Domain.User.{
  Button, Identity, User, UserBase, base_of, with_base, effective_privileged_role,
}
use rolebot_hse.Store.Users.{
  Rows, subscripted, granted, revoked, claim_delivery, set_privileged_role, clear_privileged_role,
}

pub base_of-with_base :
    (f : UserBase → UserBase) (u : User) → base_of (with_base f u) ≡ f (base_of u)
base_of-with_base f (User.telegram t) = refl
base_of-with_base f (User.vk v) = refl

-- A delivery to a known user is claimed once: a second claim of the same operation, whatever its
-- buttons, is refused and changes nothing.
claim_delivery_again :
    (identity : Identity) (op : String) (buttons buttons' : List Button) (rows : Rows) (u : User)
    → get identity rows ≡ some u
    → claim_delivery identity op buttons' (claim_delivery identity op buttons rows).0
      ≡ ((claim_delivery identity op buttons rows).0, false)
unfolding claim_delivery
claim_delivery_again identity op buttons buttons' rows u g =
    elim (Bool-cases ((base_of u).last_delivery_operation_id == some op)) [
      | inl e ↦ rw (g, e) (rw (g, e))
      | inr e ↦
          rw (g, e)
            (rw (get-adjust identity identity _ rows) (
              rw (beq_refl ⦃e = pair_eq⦄ identity, g)
                (rw (base_of-with_base _ u) (rw (beq_refl op)))))
    ]

-- The role that a user has.
abbrev pub role_in : Option User → Option PrivilegedRole
role_in none = none
role_in (some u) = effective_privileged_role (base_of u)

effective-granted :
    (role : PrivilegedRole) (op : String) (b : UserBase)
    → effective_privileged_role (granted role op b) ≡ some role
unfolding effective_privileged_role
effective-granted role op b =
    ground (arith, option_beq_iff ⦃e = role_eq⦄ (effective_privileged_role b) (some role))

effective-revoked : (op : String) (b : UserBase) → effective_privileged_role (revoked op b) ≡ none
unfolding effective_privileged_role
effective-revoked op b = ground arith

-- What a change of one user does to the roles.
role-adjust :
    (identity other : Identity) (f : UserBase → UserBase) (role : Option PrivilegedRole)
    (rows : Rows) (u : User)
    → get identity rows ≡ some u
    → ((b : UserBase) → effective_privileged_role (f b) ≡ role)
    → role_in (get other (adjust identity (with_base f) rows))
      ≡ (if identity == other then role else role_in (get other rows))
role-adjust identity other f role rows u g h = elim (Bool-cases (identity == other)) [
  | inl e ↦
      let same : identity ≡ other = (pair_eq.beq_iff identity other).0 e in
      rw (get-adjust identity other (with_base f) rows)
        (rw (e, ← same, g) (rw (base_of-with_base f u) (h (base_of u))))
  | inr e ↦ rw (get-adjust identity other (with_base f) rows) (rw e)
]

subscripted_ok :
    (identity : Identity) (f : UserBase → UserBase) (rows rows' : Rows) (o : Option User)
    → subscripted identity f rows o ≡ ok rows'
    → (u : User) × (o ≡ some u) × (adjust identity (with_base f) rows ≡ rows')
subscripted_ok identity f rows rows' none h = cc
subscripted_ok identity f rows rows' (some u) h = (u, refl, cc)

-- When a role is set, the user has it, and no other user's role changes.
role-set_privileged_role :
    (identity other : Identity) (role : PrivilegedRole) (op : String) (rows rows' : Rows)
    → set_privileged_role identity role op rows ≡ ok rows'
    → role_in (get other rows')
      ≡ (if identity == other then some role else role_in (get other rows))
unfolding set_privileged_role
role-set_privileged_role identity other role op rows rows' h =
    let (u, g, q) = subscripted_ok identity (granted role op) rows rows' (get identity rows) h in
    rw (← q) (
      role-adjust identity other (granted role op) (some role) rows u g (effective-granted role op))

-- When the role of a user is cleared, the user has none, and no other user's role changes.
role-clear_privileged_role :
    (identity other : Identity) (op : String) (rows rows' : Rows)
    → clear_privileged_role identity op rows ≡ ok rows'
    → role_in (get other rows') ≡ (if identity == other then none else role_in (get other rows))
unfolding clear_privileged_role
role-clear_privileged_role identity other op rows rows' h =
    let (u, g, q) = subscripted_ok identity (revoked op) rows rows' (get identity rows) h in
    rw (← q) (role-adjust identity other (revoked op) none rows u g (effective-revoked op))
