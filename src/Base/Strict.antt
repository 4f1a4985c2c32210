-- ===== src/Base/Strict.antt =====
-- Lists whose keys grow from item to item, and what lies behind an item of one.
use mathlib.Core.Path.{◌≡◌, refl, ap}
use mathlib.Core.Logic.{inl, inr}
use mathlib.Core.Bool.{Bool, true, false}
use mathlib.Core.List.{List, [], ◌∷◌, ◌++◌}
use native.Mathlib.Omega.{arith}
use rolebot_hse.Base.Tests.{Bool-cases}
use rolebot_hse.Base.Lists.{keep_if, All}
use rolebot_hse.Base.Order.{Order}
use rolebot_hse.Base.Sort.{NotBefore, IsSorted, All-keep_if}
use rolebot_hse.Base.Reorder.{Differs, IsDistinct}

All-append_head {ℓ κ} :
    {A : Type ℓ} (P : A → Type κ) (xs : List A) (y : A) (zs : List A) → All P (xs ++ y ∷ zs) → P y
All-append_head P [] y zs h = h.0
All-append_head P (x ∷ xs) y zs h = All-append_head P xs y zs h.1

module _ {ℓ} {A K : Type ℓ} ⦃o : Order K⦄ where
  abbrev pub Before : (A → K) → A → A → Type 0
  Before key x y = o.lt (key x) (key y) ≡ true

  abbrev pub IsStrict : (A → K) → List A → Type 0
  IsStrict key [] = Unit {0}
  IsStrict key (x ∷ xs) = All (Before key x) xs × IsStrict key xs

  All-Before :
      (key : A → K) (x : A) (ys : List A)
      → All (NotBefore key x) ys
      → All (Differs key x) ys
      → All (Before key x) ys
  All-Before key x [] h d = tt
  All-Before key x (y ∷ ys) h d =
      (ground (arith, o.lt_connex (key x) (key y), h.0, d.0), All-Before key x ys h.1 d.1)

  pub IsStrict-of_sorted :
      (key : A → K) (xs : List A) → IsSorted key xs → IsDistinct key xs → IsStrict key xs
  IsStrict-of_sorted key [] h d = tt
  IsStrict-of_sorted key (x ∷ xs) h d =
      (All-Before key x xs h.0 d.0, IsStrict-of_sorted key xs h.1 d.1)

  pub keep_if-IsStrict :
      (key : A → K) (p : A → Bool) (xs : List A) → IsStrict key xs → IsStrict key (keep_if p xs)
  keep_if-IsStrict key p [] h = tt
  keep_if-IsStrict key p (x ∷ xs) h = elim (Bool-cases (p x)) [
    | inl e ↦ rw e (All-keep_if (Before key x) p xs h.0, keep_if-IsStrict key p xs h.1)
    | inr e ↦ rw e (keep_if-IsStrict key p xs h.1)
  ]

  keep-All :
      (key : A → K) (x : A) (ys : List A)
      → All (Before key x) ys
      → keep_if (λ y. o.lt (key x) (key y)) ys ≡ ys
  keep-All key x [] h = refl
  keep-All key x (y ∷ ys) h = rw h.0 (ap (λ l. y ∷ l) (keep-All key x ys h.1))

  -- The items with a larger key than one of the list are those behind it.
  pub keep_if_behind :
      (key : A → K) (xs : List A) (y : A) (zs : List A)
      → IsStrict key (xs ++ y ∷ zs)
      → keep_if (λ z. o.lt (key y) (key z)) (xs ++ y ∷ zs) ≡ zs
  keep_if_behind key [] y zs h = rw (o.lt_irrefl (key y)) (keep-All key y zs h.0)
  keep_if_behind key (x ∷ xs) y zs h =
      let smaller : o.lt (key x) (key y) ≡ true = All-append_head (Before key x) xs y zs h.0 in
      let not_larger : o.lt (key y) (key x) ≡ false =
        ground (arith, o.lt_trans (key x) (key y) (key x), o.lt_irrefl (key x), smaller) in
      rw not_larger (keep_if_behind key xs y zs h.1)
