-- ===== src/Base/Sort.antt =====
-- Python's `sorted(xs, key=...)`: a stable sort, as an insertion sort.
use mathlib.Core.Path.{◌≡◌, refl, ap}
use mathlib.Core.Logic.{inl, inr}
use mathlib.Core.Bool.{Bool, true, false}
use mathlib.Core.List.{List, [], ◌∷◌, ◌++◌, Perm}
use mathlib.Core.List.Perm
use native.Mathlib.Omega.{arith}
use rolebot_hse.Base.Tests.{if◌then◌else◌, Bool-cases}
use rolebot_hse.Base.Lists.{keep_if, All}
use rolebot_hse.Base.Order.{Order}

module _ {ℓ} {K : Type ℓ} ⦃o : Order K⦄ where
  lt_asymm : (a b : K) → o.lt a b ≡ true → o.lt b a ≡ false
  lt_asymm a b h = ground (arith, o.lt_trans a b a, o.lt_irrefl a)

  not_lt_trans : (a b c : K) → o.lt b a ≡ false → o.lt c b ≡ false → o.lt c a ≡ false
  not_lt_trans a b c h k = ground (arith, o.lt_trans b c a, o.lt_connex b c, o.lt_trans c a b)

module _ {ℓ} {A : Type ℓ} where
  pub All-keep_if {κ} :
      (P : A → Type κ) (p : A → Bool) (xs : List A) → All P xs → All P (keep_if p xs)
  All-keep_if P p [] h = tt
  All-keep_if P p (x ∷ xs) h = elim (Bool-cases (p x)) [
    | inl e ↦ rw e (h.0, All-keep_if P p xs h.1)
    | inr e ↦ rw e (All-keep_if P p xs h.1)
  ]

module _ {ℓ} {A K : Type ℓ} ⦃o : Order K⦄ where
  -- `x` goes in front of the first item with a key that is not smaller, so equals keep their order.
  unfoldable pub insert_by : (A → K) → A → List A → List A
  insert_by key x [] = x ∷ []
  insert_by key x (y ∷ ys) =
      let rest = insert_by key x ys in if o.lt (key y) (key x) then y ∷ rest else x ∷ y ∷ ys

  unfoldable pub sort_by : (A → K) → List A → List A
  sort_by key [] = []
  sort_by key (x ∷ xs) = insert_by key x (sort_by key xs)

  abbrev pub NotBefore : (A → K) → A → A → Type 0
  NotBefore key x y = o.lt (key y) (key x) ≡ false

  -- No item stands behind one with a larger key.
  abbrev pub IsSorted : (A → K) → List A → Type 0
  IsSorted key [] = Unit {0}
  IsSorted key (x ∷ xs) = All (NotBefore key x) xs × IsSorted key xs

  All-NotBefore :
      (key : A → K) (x y : A) (zs : List A)
      → NotBefore key x y
      → All (NotBefore key y) zs
      → All (NotBefore key x) zs
  All-NotBefore key x y [] h k = tt
  All-NotBefore key x y (z ∷ zs) h k =
      (not_lt_trans (key x) (key y) (key z) h k.0, All-NotBefore key x y zs h k.1)

  pub All-insert_by {κ} :
      (P : A → Type κ) (key : A → K) (x : A) (ys : List A)
      → P x
      → All P ys
      → All P (insert_by key x ys)
  unfolding insert_by
  All-insert_by P key x [] p h = (p, tt)
  All-insert_by P key x (y ∷ ys) p h = elim (Bool-cases (o.lt (key y) (key x))) [
    | inl e ↦ rw e (h.0, All-insert_by P key x ys p h.1)
    | inr e ↦ rw e (p, h)
  ]

  pub insert_by-IsSorted :
      (key : A → K) (x : A) (ys : List A) → IsSorted key ys → IsSorted key (insert_by key x ys)
  unfolding insert_by
  insert_by-IsSorted key x [] h = (tt, tt)
  insert_by-IsSorted key x (y ∷ ys) h = elim (Bool-cases (o.lt (key y) (key x))) [
    | inl e ↦ rw e (
      All-insert_by (NotBefore key y) key x ys (lt_asymm (key y) (key x) e) h.0,
      insert_by-IsSorted key x ys h.1,
    )
    | inr e ↦ rw e ((e, All-NotBefore key x y ys e h.0), h)
  ]

  -- The result is in order.
  pub sort_by-IsSorted : (key : A → K) (xs : List A) → IsSorted key (sort_by key xs)
  unfolding sort_by
  sort_by-IsSorted key [] = tt
  sort_by-IsSorted key (x ∷ xs) =
      insert_by-IsSorted key x (sort_by key xs) (sort_by-IsSorted key xs)

  insert_by-perm : (key : A → K) (x : A) (ys : List A) → Perm (insert_by key x ys) (x ∷ ys)
  unfolding insert_by
  insert_by-perm key x [] = Perm.refl (x ∷ [])
  insert_by-perm key x (y ∷ ys) = elim (Bool-cases (o.lt (key y) (key x))) [
    | inl e ↦ rw e (Perm.trans (Perm.cons y (insert_by-perm key x ys)) (Perm.swap x y ys))
    | inr e ↦ rw e (Perm.refl (x ∷ y ∷ ys))
  ]

  -- The result holds the same items.
  pub sort_by-perm : (key : A → K) (xs : List A) → Perm (sort_by key xs) xs
  unfolding sort_by
  sort_by-perm key [] = Perm.refl []
  sort_by-perm key (x ∷ xs) =
      Perm.trans (insert_by-perm key x (sort_by key xs)) (Perm.cons x (sort_by-perm key xs))

  -- An item that is smaller than none goes to the front.
  insert_by_front :
      (key : A → K) (x : A) (ys : List A) → All (NotBefore key x) ys → insert_by key x ys ≡ x ∷ ys
  unfolding insert_by
  insert_by_front key x [] h = refl
  insert_by_front key x (y ∷ ys) h = rw h.0

  pub sort_by_sorted : (key : A → K) (xs : List A) → IsSorted key xs → sort_by key xs ≡ xs
  unfolding sort_by
  sort_by_sorted key [] h = refl
  sort_by_sorted key (x ∷ xs) h = rw (sort_by_sorted key xs h.1) (insert_by_front key x xs h.0)

  insert_by-append_last :
      (key : A → K) (x y : A) (zs : List A)
      → NotBefore key y x
      → insert_by key y (zs ++ x ∷ []) ≡ insert_by key y zs ++ x ∷ []
  unfolding insert_by
  insert_by-append_last key x y [] h = rw h
  insert_by-append_last key x y (z ∷ zs) h = elim (Bool-cases (o.lt (key z) (key y))) [
    | inl e ↦ rw e (ap (λ l. z ∷ l) (insert_by-append_last key x y zs h))
    | inr e ↦ rw e
  ]

  -- An item at the end whose key is smaller than no other stays at the end.
  pub sort_by-append_last :
      (key : A → K) (x : A) (xs : List A)
      → All (λ y. NotBefore key y x) xs
      → sort_by key (xs ++ x ∷ []) ≡ sort_by key xs ++ x ∷ []
  unfolding sort_by insert_by
  sort_by-append_last key x [] h = refl
  sort_by-append_last key x (y ∷ ys) h =
      rw (sort_by-append_last key x ys h.1) (insert_by-append_last key x y (sort_by key ys) h.0)

  keep_if-insert_by :
      (key : A → K) (p : A → Bool) (x : A) (ys : List A)
      → IsSorted key ys
      → keep_if p (insert_by key x ys)
        ≡ (if p x then insert_by key x (keep_if p ys) else keep_if p ys)
  unfolding insert_by
  keep_if-insert_by key p x [] h = refl
  keep_if-insert_by key p x (y ∷ ys) h = elim (Bool-cases (o.lt (key y) (key x))) [
    | inl e ↦ rw e (ground (arith, keep_if-insert_by key p x ys h.1))
    | inr e ↦ ground (
      arith,
      insert_by_front key x (keep_if p ys)
          (All-keep_if (NotBefore key x) p ys (All-NotBefore key x y ys e h.0)),
    )
  ]

  -- Selecting and sorting commute.
  pub keep_if-sort_by :
      (key : A → K) (p : A → Bool) (xs : List A)
      → keep_if p (sort_by key xs) ≡ sort_by key (keep_if p xs)
  unfolding sort_by
  keep_if-sort_by key p [] = refl
  keep_if-sort_by key p (x ∷ xs) = ground (
    arith,
    keep_if-insert_by key p x (sort_by key xs) (sort_by-IsSorted key xs),
    keep_if-sort_by key p xs,
  )
