-- ===== src/Dict.antt =====
-- A Python dict in insertion order, with keys of any type that has `==`.
use rolebot_hse.Base.{◌≡◌, refl, Option, none, some, List, [], ◌∷◌, arith, Eq, if◌then◌else◌}

abbrev pub Dict {ℓ} : Type ℓ → Type ℓ → Type ℓ
Dict K V = List (K × V)

module _ {ℓ} {K V : Type ℓ} ⦃e : Eq K⦄ where
  -- `d.get(k)`
  abbrev pub get : K → Dict K V → Option V
  get k [] = none
  get k ((j, v) ∷ d) = let rest = get k d in if e.beq j k then some v else rest

  -- `d[k] = v`: in place where the key is there, else at the end
  abbrev pub put : K → V → Dict K V → Dict K V
  put k v [] = (k, v) ∷ []
  put k v ((j, w) ∷ d) = let rest = put k v d in if e.beq j k then (j, v) ∷ d else (j, w) ∷ rest

  -- `d.pop(k, None)`
  abbrev pub pop : K → Dict K V → Dict K V
  pop k [] = []
  pop k ((j, w) ∷ d) = let rest = pop k d in if e.beq j k then rest else (j, w) ∷ rest

  -- the mutation of the object that `d[k]` holds
  abbrev pub adjust : K → (V → V) → Dict K V → Dict K V
  adjust k f [] = []
  adjust k f ((j, w) ∷ d) =
      let rest = adjust k f d in if e.beq j k then (j, f w) ∷ d else (j, w) ∷ rest

  pub get-put :
      (k j : K) (v : V) (d : Dict K V) → get j (put k v d) ≡ (if e.beq k j then some v else get j d)
  get-put k j v [] = refl
  get-put k j v ((i, w) ∷ d) =
      ground (arith, get-put k j v d, e.beq_iff i k, e.beq_iff i j, e.beq_iff k j)

  pub get-pop : (k j : K) (d : Dict K V) → get j (pop k d) ≡ (if e.beq k j then none else get j d)
  get-pop k j [] = ground arith
  get-pop k j ((i, w) ∷ d) =
      ground (arith, get-pop k j d, e.beq_iff i k, e.beq_iff i j, e.beq_iff k j)

-- the change of an optional value
abbrev pub map_option {ℓ} : {V : Type ℓ} → (V → V) → Option V → Option V
map_option f none = none
map_option f (some v) = some (f v)

module _ {ℓ} {K V : Type ℓ} ⦃e : Eq K⦄ where
  pub get-adjust :
      (k j : K) (f : V → V) (d : Dict K V)
      → get j (adjust k f d) ≡ (if e.beq k j then map_option f (get j d) else get j d)
  get-adjust k j f [] = ground arith
  get-adjust k j f ((i, w) ∷ d) =
      ground (arith, get-adjust k j f d, e.beq_iff i k, e.beq_iff i j, e.beq_iff k j)

abbrev pub values {ℓ} : {K V : Type ℓ} → Dict K V → List V
values [] = []
values ((k, v) ∷ d) = v ∷ values d
