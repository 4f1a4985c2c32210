-- ===== src/Tests/Distinct.antt =====
-- Tests that decide whether keys differ.
use rolebot_hse.Base.{◌≡◌, ◌≢◌, Bool, true, false, not, ◌&&◌, List, [], ◌∷◌, Eq, arith, All, all_of}
use rolebot_hse.Base.Reorder.{Differs, IsDistinct}

pub differ {ℓ} : {K : Type ℓ} ⦃e : Eq K⦄ (a b : K) → e.beq a b ≡ false → a ≢ b
differ ⦃e = e⦄ a b h q = ground (arith, e.beq_iff a b, h, q)

module _ {ℓ} {A K : Type ℓ} ⦃e : Eq K⦄ where
  abbrev pub are_distinct : (A → K) → List A → Bool
  are_distinct key [] = true
  are_distinct key (x ∷ xs) = all_of (λ y. not (e.beq (key x) (key y))) xs && are_distinct key xs

  All-Differs :
      (key : A → K) (x : A) (ys : List A)
      → all_of (λ y. not (e.beq (key x) (key y))) ys ≡ true
      → All (Differs key x) ys
  All-Differs key x [] h = tt
  All-Differs key x (y ∷ ys) h =
      (differ (key x) (key y) (ground (arith, h)), All-Differs key x ys (ground (arith, h)))

  pub are_distinct-IsDistinct :
      (key : A → K) (xs : List A) → are_distinct key xs ≡ true → IsDistinct key xs
  are_distinct-IsDistinct key [] h = tt
  are_distinct-IsDistinct key (x ∷ xs) h =
      (All-Differs key x xs (ground (arith, h)), are_distinct-IsDistinct key xs (ground (arith, h)))
