-- ===== src/Application/Mutations/Rights.antt =====
-- Who has rights over a game, read from the leaders that the store has and the administrators.
use rolebot_hse.Base.{
  ◌≡◌, refl, String, Bool, false, ◌∙◌, Option, none, some, List, [], ◌∷◌, mem, any_of, map, All,
  ◌≢◌, arith, string_eq, nat_eq, pair_eq,
}
use rolebot_hse.Base.Order.{text_order, nat_order, pair_order}
use rolebot_hse.Base.Sort.{insert_by, sort_by}
use rolebot_hse.Dict.{get}
use rolebot_hse.Domain.Enums.{platform_eq}
use rolebot_hse.Domain.User.{Identity}
use rolebot_hse.Domain.Command.{OrderedRegistrationCommand}
use rolebot_hse.Store.Users.{identities_for_local_user}
use rolebot_hse.Store.Events.State.{leader_key, leaders_of, list_leaders}
use rolebot_hse.Application.Mutations.{World, Services}
use rolebot_hse.Application.Mutations.Access.{leads_event, is_administrator, identities_of}

mem-insert_by :
    (i x : Identity) (ys : List Identity) → mem i (insert_by leader_key x ys) ≡ mem i (x ∷ ys)
unfolding insert_by
mem-insert_by i x [] = refl
mem-insert_by i x (y ∷ ys) = ground (arith, mem-insert_by i x ys)

mem-sort_by : (i : Identity) (xs : List Identity) → mem i (sort_by leader_key xs) ≡ mem i xs
unfolding sort_by
mem-sort_by i [] = refl
mem-sort_by i (x ∷ xs) =
    mem-insert_by i x (sort_by leader_key xs) ∙ ground (arith, mem-sort_by i xs)

mem-leaders :
    (i : Identity) (o : Option (List Identity))
    → mem i (elim o [ none ↦ [] | some leaders ↦ leaders ])
      ≡ (elim o [ none ↦ false | some leaders ↦ mem i leaders ])
mem-leaders i none = refl
mem-leaders i (some leaders) = refl

module _ {S : Type 0} (services : Services S) where
  -- Whether the store has the identity among the leaders of the game.
  abbrev pub leads : String → World S → Identity → Bool
  leads event_id w i = elim (get event_id w.events.leaders) [
    | none ↦ false
    | some leaders ↦ mem i leaders
  ]

  abbrev pub administers : Identity → Bool
  administers i = elim services.is_admin [ none ↦ false | some is_admin ↦ is_admin i ]

  -- The profile neither leads the game nor is an administrator.
  abbrev pub IsNoMaster : String → World S → Identity → Type 0
  IsNoMaster event_id w i = (leads event_id w i ≡ false) × (administers i ≡ false)

  mem-list_leaders :
      (event_id : String) (w : World S) (i : Identity)
      → mem i (list_leaders event_id w.events) ≡ leads event_id w i
  unfolding list_leaders
  mem-list_leaders event_id w i =
      mem-sort_by i (leaders_of event_id w.events) ∙ mem-leaders i (get event_id w.events.leaders)

  no_leader :
      (event_id : String) (w : World S) (is : List Identity)
      → All (IsNoMaster event_id w) is
      → any_of (λ i. mem i (list_leaders event_id w.events)) is ≡ false
  no_leader event_id w [] h = refl
  no_leader event_id w (i ∷ is) h =
      rw (mem-list_leaders event_id w i, h.0.0) (no_leader event_id w is h.1)

  no_administrator :
      (event_id : String) (w : World S) (is : List Identity)
      → All (IsNoMaster event_id w) is
      → is_administrator services is ≡ false
  no_administrator event_id w [] h = ground arith
  no_administrator event_id w (i ∷ is) h =
      by_admins services.is_admin refl (no_administrator event_id w is h.1)
    where
      by_admins :
          (o : Option (Identity → Bool))
          → services.is_admin ≡ o
          → is_administrator services is ≡ false
          → is_administrator services (i ∷ is) ≡ false
      by_admins none k rest = rw k refl
      by_admins (some f) k rest = ground (arith, k, h.0.1, rest)

  pub IsNoMaster-leads_event :
      (c : OrderedRegistrationCommand) (w : World S)
      → All
          (IsNoMaster c.event_id w)
          (identities_for_local_user w.users (c.platform, c.platform_user_id))
      → leads_event services c w ≡ false
  unfolding leads_event
  IsNoMaster-leads_event c w h = no_leader c.event_id w (identities_of services c w) h

  pub IsNoMaster-is_administrator :
      (c : OrderedRegistrationCommand) (w : World S)
      → All
          (IsNoMaster c.event_id w)
          (identities_for_local_user w.users (c.platform, c.platform_user_id))
      → is_administrator services (identities_of services c w) ≡ false
  IsNoMaster-is_administrator c w h = no_administrator c.event_id w (identities_of services c w) h

-- The key is that of none of these identities in the game.
abbrev pub IsForeign : (Identity → String → String) → String → String → Identity → Type 0
IsForeign participant_key event_id key i = participant_key i event_id ≢ key

pub IsForeign-mem :
    (participant_key : Identity → String → String) (event_id key : String) (is : List Identity)
    → All (IsForeign participant_key event_id key) is
    → mem key (map (λ i. participant_key i event_id) is) ≡ false
IsForeign-mem participant_key event_id key [] h = refl
IsForeign-mem participant_key event_id key (i ∷ is) h = ground (
  arith,
  IsForeign-mem participant_key event_id key is h.1,
  string_eq.beq_iff key (participant_key i event_id),
  h.0,
)
