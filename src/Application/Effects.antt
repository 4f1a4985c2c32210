-- ===== src/Application/Effects.antt =====
-- Calls that return or raise, on a state: what a call wrote before it raised stays written.
use rolebot_hse.Base.{◌≡◌, refl, ap, Bool, true, false, Option, none, some}
use rolebot_hse.Errors.{Result, ok, err, Error}

abbrev pub Effect : Type 0 → Type 0 → Type 0
Effect S A = S → Result A × S

module _ {S : Type 0} where
  -- The rest of a block, after a call that returned or raised.
  abbrev pub continue : {A B : Type 0} → (A → Effect S B) → Result A × S → Result B × S
  continue f (ok a, s) = f a s
  continue f (err e, s) = (err e, s)

  infixl 5 ◌>>=◌ ◌>>◌
  abbrev pub ◌>>=◌ : {A B : Type 0} → Effect S A → (A → Effect S B) → Effect S B
  ◌>>=◌ m f s = continue f (m s)

  abbrev pub ◌>>◌ : {A B : Type 0} → Effect S A → Effect S B → Effect S B
  ◌>>◌ m k s = continue (λ _. k) (m s)

  abbrev pub pure : {A : Type 0} → A → Effect S A
  pure a s = (ok a, s)

  abbrev pub raise : {A : Type 0} → Error → Effect S A
  raise e s = (err e, s)

  abbrev pub read : {A : Type 0} → (S → A) → Effect S A
  read f s = (ok (f s), s)

  abbrev pub write : (S → S) → Effect S (Unit {0})
  write f s = (ok tt, f s)

  -- A call under an `if` with no `else`.
  abbrev pub when : Bool → Effect S (Unit {0}) → Effect S (Unit {0})
  when true m = m
  when false m = pure tt

  -- A call on a service that may not be configured, where its absence raises a `RuntimeError`.
  abbrev pub configured : {A B : Type 0} → Option A → (A → Effect S B) → Effect S B
  configured none f = raise Error.runtime_error
  configured (some a) f = f a

  -- A call on a service that may be absent, where nothing happens without it.
  abbrev pub if_present : {A : Type 0} → Option A → (A → Effect S (Unit {0})) → Effect S (Unit {0})
  if_present none f = pure tt
  if_present (some a) f = f a

  pub bind_ok :
      {A B : Type 0} (m : Effect S A) (f : A → Effect S B) (s s' : S) (a : A)
      → m s ≡ (ok a, s')
      → (m >>= f) s ≡ f a s'
  bind_ok m f s s' a h = ap (continue f) h

  pub bind_err :
      {A B : Type 0} (m : Effect S A) (f : A → Effect S B) (s s' : S) (e : Error)
      → m s ≡ (err e, s')
      → (m >>= f) s ≡ (err e, s')
  bind_err m f s s' e h = ap (continue f) h

  -- A block that returned: its first call returned, and the rest went on behind it.
  pub continue-ok :
      {A B : Type 0} (f : A → Effect S B) (p : Result A × S) (b : B) (s : S)
      → continue f p ≡ (ok b, s)
      → (a : A) × (s' : S) × (p ≡ (ok a, s')) × (f a s' ≡ (ok b, s))
  continue-ok f (ok a, s') b s h = (a, s', refl, h)
  continue-ok f (err e, s') b s h = cc
