-- ===== src/Base/Reorder.antt =====
-- Sorting by keys that are pairwise different does not depend on the order of the input.
use mathlib.Core.Path.{◌≡◌, refl, sym, ap, ◌∙◌}
use mathlib.Core.Logic.{◌≢◌, inl, inr}
use mathlib.Core.Bool.{Bool, true}
use mathlib.Core.List.{List, [], ◌∷◌, ◌++◌}
use native.Mathlib.Omega.{arith}
use rolebot_hse.Base.Tests.{Bool-cases}
use rolebot_hse.Base.Lists.{keep_if, All}
use rolebot_hse.Base.Order.{Order}
use rolebot_hse.Base.Sort.{insert_by, sort_by, All-keep_if, All-insert_by}

module _ {ℓ} {A K : Type ℓ} where
  abbrev pub Differs : (A → K) → A → A → Type ℓ
  Differs key x y = key x ≢ key y

  -- No two items have one key.
  abbrev pub IsDistinct : (A → K) → List A → Type ℓ
  IsDistinct key [] = Unit {ℓ}
  IsDistinct key (x ∷ xs) = All (Differs key x) xs × IsDistinct key xs

  pub keep_if-IsDistinct :
      (key : A → K) (p : A → Bool) (xs : List A) → IsDistinct key xs → IsDistinct key (keep_if p xs)
  keep_if-IsDistinct key p [] h = tt
  keep_if-IsDistinct key p (x ∷ xs) h = elim (Bool-cases (p x)) [
    | inl e ↦ rw e (All-keep_if (Differs key x) p xs h.0, keep_if-IsDistinct key p xs h.1)
    | inr e ↦ rw e (keep_if-IsDistinct key p xs h.1)
  ]

module _ {ℓ} {A K : Type ℓ} ⦃o : Order K⦄ where
  pub insert_by_comm :
      (key : A → K) (x y : A) (zs : List A)
      → key x ≢ key y
      → insert_by key x (insert_by key y zs) ≡ insert_by key y (insert_by key x zs)
  unfolding insert_by
  insert_by_comm key x y [] h =
      ground (
        arith,
        o.lt_connex (key x) (key y),
        o.lt_trans (key x) (key y) (key x),
        o.lt_irrefl (key x),
      )
  insert_by_comm key x y (z ∷ zs) h = ground (
    arith,
    insert_by_comm key x y zs h,
    o.lt_connex (key x) (key y),
    o.lt_trans (key x) (key y) (key x),
    o.lt_irrefl (key x),
    o.lt_trans (key z) (key x) (key y),
    o.lt_trans (key z) (key y) (key x),
  )

  sort_by-insert_by :
      (key other : A → K) (x : A) (ys : List A)
      → All (Differs key x) ys
      → sort_by key (insert_by other x ys) ≡ insert_by key x (sort_by key ys)
  unfolding sort_by insert_by
  sort_by-insert_by key other x [] h = refl
  sort_by-insert_by key other x (y ∷ ys) h = elim (Bool-cases (o.lt (other y) (other x))) [
    | inl e ↦ rw e (
        ap (insert_by key y) (sort_by-insert_by key other x ys h.1)
        ∙ insert_by_comm key y x (sort_by key ys) (λ q. h.0 (sym q)))
    | inr e ↦ rw e
  ]

  pub All-sort_by {κ} :
      (P : A → Type κ) (key : A → K) (xs : List A) → All P xs → All P (sort_by key xs)
  unfolding sort_by
  All-sort_by P key [] h = tt
  All-sort_by P key (x ∷ xs) h =
      All-insert_by P key x (sort_by key xs) h.0 (All-sort_by P key xs h.1)

  -- Only the last sort counts.
  pub sort_by-sort_by :
      (key other : A → K) (xs : List A)
      → IsDistinct key xs
      → sort_by key (sort_by other xs) ≡ sort_by key xs
  unfolding sort_by
  sort_by-sort_by key other [] h = refl
  sort_by-sort_by key other (x ∷ xs) h =
      sort_by-insert_by key other x (sort_by other xs) (All-sort_by (Differs key x) other xs h.0)
      ∙ ap (insert_by key x) (sort_by-sort_by key other xs h.1)

  -- An item in the middle is sorted in as if it stood in front.
  pub sort_by-append_middle :
      (key : A → K) (xs : List A) (x : A) (ys : List A)
      → All (Differs key x) xs
      → sort_by key (xs ++ x ∷ ys) ≡ insert_by key x (sort_by key (xs ++ ys))
  unfolding sort_by
  sort_by-append_middle key [] x ys h = refl
  sort_by-append_middle key (z ∷ xs) x ys h =
      ap (insert_by key z) (sort_by-append_middle key xs x ys h.1)
      ∙ insert_by_comm key z x (sort_by key (xs ++ ys)) (λ q. h.0 (sym q))

  -- An item with the largest key goes to the end.
  pub insert_by_last :
      (key : A → K) (x : A) (ys : List A)
      → All (λ y. o.lt (key y) (key x) ≡ true) ys
      → insert_by key x ys ≡ ys ++ x ∷ []
  unfolding insert_by
  insert_by_last key x [] h = refl
  insert_by_last key x (y ∷ ys) h = rw h.0 (ap (λ l. y ∷ l) (insert_by_last key x ys h.1))

module _ {ℓ} {A K L : Type ℓ} ⦃o : Order K⦄ where
  insert_by-IsDistinct :
      (name : A → L) (key : A → K) (x : A) (ys : List A)
      → All (Differs name x) ys
      → IsDistinct name ys
      → IsDistinct name (insert_by key x ys)
  unfolding insert_by
  insert_by-IsDistinct name key x [] h k = (tt, tt)
  insert_by-IsDistinct name key x (y ∷ ys) h k = elim (Bool-cases (o.lt (key y) (key x))) [
    | inl e ↦ rw e (
      All-insert_by (Differs name y) key x ys (λ q. h.0 (sym q)) k.0,
      insert_by-IsDistinct name key x ys h.1 k.1,
    )
    | inr e ↦ rw e (h, k)
  ]

  -- Sorting keeps what tells the items apart.
  pub sort_by-IsDistinct :
      (name : A → L) (key : A → K) (xs : List A)
      → IsDistinct name xs
      → IsDistinct name (sort_by key xs)
  unfolding sort_by
  sort_by-IsDistinct name key [] h = tt
  sort_by-IsDistinct name key (x ∷ xs) h =
      insert_by-IsDistinct name key x (sort_by key xs) (All-sort_by (Differs name x) key xs h.0)
        (sort_by-IsDistinct name key xs h.1)
