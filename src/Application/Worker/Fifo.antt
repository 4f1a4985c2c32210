-- ===== src/Application/Worker/Fifo.antt =====
-- Each group of the queue is served in its own order, and stops at its first failure.
use mathlib.Core.List.{append-nil, append_assoc}
use rolebot_hse.Base.{
  ℕ, String, ◌≡◌, refl, sym, ap, ◌∙◌, Bool, true, false, List, [], ◌∷◌, ◌++◌, string_eq, mem,
  keep_if, keep_if-append, All, Bool-cases, inl, inr, if◌then◌else◌,
}
use rolebot_hse.Base.Order.{nat_order}
use rolebot_hse.Errors.{Result, ok, err}
use rolebot_hse.Application.Worker.{QueueEnvelope, World, Services}
use rolebot_hse.Application.Worker.Handle.{handle}
use mathlib.Core.Path.{subst}
use rolebot_hse.Application.Worker.Log.{
  Attempt, IsFifo, in_group, attempts_of, received, has_failure, IsFifo-stopped, IsFifo-served,
  has_failure-append, keep_if-in_order, other_group, mem-head, mem-tail, All-append,
}
use rolebot_hse.Application.Worker.Drain.{
  Poll, Loop, group_of, is_background, in_order, conclude, serve_one, serve, with_receipts, drain,
  first_loop,
}

module _ (g : String) where
  -- What holds of the group after the commands `rs` were taken.
  abbrev IsServed : List QueueEnvelope → List Attempt → List String → Type 0
  IsServed rs log failed =
      IsFifo rs (attempts_of g log) × (mem g failed ≡ has_failure (attempts_of g log))

  attempts_of-append :
      (log : List Attempt) (a : Attempt)
      → attempts_of g (log ++ a ∷ []) ≡ attempts_of g log ++ attempts_of g (a ∷ [])
  attempts_of-append log a = keep_if-append (λ a. in_group g a.0) log (a ∷ [])

  own_failed :
      (raw : QueueEnvelope) (b : Bool) (log : List Attempt) (failed : List String)
      → group_of raw ≡ g
      → mem g failed ≡ has_failure (attempts_of g log)
      → mem g (if b then failed else group_of raw ∷ failed)
        ≡ has_failure (attempts_of g log ++ (raw, b) ∷ [])
  own_failed raw true log failed same h = h ∙ sym (has_failure-append (attempts_of g log) raw true)
  own_failed raw false log failed same h =
      rw (same, mem-head g failed) (sym (has_failure-append (attempts_of g log) raw false))

  other_failed :
      (raw : QueueEnvelope) (b : Bool) (failed : List String)
      → in_group g raw ≡ false
      → mem g (if b then failed else group_of raw ∷ failed) ≡ mem g failed
  other_failed raw true failed e = refl
  other_failed raw false failed e =
      mem-tail g (group_of raw) failed (other_group g (group_of raw) e)

  -- A command of the group is attempted.
  own-IsServed :
      (rs : List QueueEnvelope) (raw : QueueEnvelope) (b : Bool) (log : List Attempt)
      (failed : List String)
      → in_group g raw ≡ true
      → mem (group_of raw) failed ≡ false
      → IsServed rs log failed
      → IsServed
          (rs ++ keep_if (in_group g) (raw ∷ []))
          (log ++ (raw, b) ∷ [])
          (if b then failed else group_of raw ∷ failed)
  own-IsServed rs raw b log failed e n h =
      let same = (string_eq.beq_iff (group_of raw) g).0 e in
      let free = ap (λ x. mem x failed) (sym same) ∙ n in
      rw (attempts_of-append log (raw, b), e)
        (
          IsFifo-served rs (attempts_of g log) raw b h.0 (sym h.1 ∙ free),
          own_failed raw b log failed same h.1,
        )

  -- A command of another group is attempted.
  other-IsServed :
      (rs : List QueueEnvelope) (raw : QueueEnvelope) (b : Bool) (log : List Attempt)
      (failed : List String)
      → in_group g raw ≡ false
      → IsServed rs log failed
      → IsServed
          (rs ++ keep_if (in_group g) (raw ∷ []))
          (log ++ (raw, b) ∷ [])
          (if b then failed else group_of raw ∷ failed)
  other-IsServed rs raw b log failed e h =
      rw (attempts_of-append log (raw, b), e, append-nil rs, append-nil (attempts_of g log))
        (h.0, other_failed raw b failed e ∙ h.1)

module _ {S : Type 0} (services : Services S) (g : String) where
  -- The same of the variables of the loop.
  abbrev IsServedBy : List QueueEnvelope → Loop S → Type 0
  IsServedBy rs l = IsServed g rs l.attempts l.failed_groups

  -- An attempt, in the group or out of it.
  attempt-IsServed :
      (rs : List QueueEnvelope) (raw : QueueEnvelope) (b : Bool) (log : List Attempt)
      (failed : List String)
      → mem (group_of raw) failed ≡ false
      → IsServed g rs log failed
      → IsServed g
          (rs ++ keep_if (in_group g) (raw ∷ []))
          (log ++ (raw, b) ∷ [])
          (if b then failed else group_of raw ∷ failed)
  attempt-IsServed rs raw b log failed n h = elim (Bool-cases (in_group g raw)) [
    | inl e ↦ own-IsServed g rs raw b log failed e n h
    | inr e ↦ other-IsServed g rs raw b log failed e h
  ]

  conclude-IsServedBy :
      (rs : List QueueEnvelope) (raw : QueueEnvelope) (l : Loop S) (r : Result (Unit {0}) × World S)
      → mem (group_of raw) l.failed_groups ≡ false
      → IsServedBy rs l
      → IsServedBy (rs ++ keep_if (in_group g) (raw ∷ [])) (conclude services raw l r)
  conclude-IsServedBy rs raw l (ok _, w) n h =
      attempt-IsServed rs raw true l.attempts l.failed_groups n h
  conclude-IsServedBy rs raw l (err e, w) n h =
      attempt-IsServed rs raw false l.attempts l.failed_groups n h

  -- A command that is skipped.
  skip-IsServedBy :
      (rs : List QueueEnvelope) (raw : QueueEnvelope) (l : Loop S)
      → mem (group_of raw) l.failed_groups ≡ true
      → IsServedBy rs l
      → IsServedBy (rs ++ keep_if (in_group g) (raw ∷ [])) l
  skip-IsServedBy rs raw l f h = elim (Bool-cases (in_group g raw)) [
    | inl e ↦ (
      IsFifo-stopped rs (attempts_of g l.attempts) (keep_if (in_group g) (raw ∷ [])) h.0 (
          sym h.1
          ∙ ap (λ x. mem x l.failed_groups) (sym ((string_eq.beq_iff (group_of raw) g).0 e))
          ∙ f),
      h.1,
    )
    | inr e ↦ rw (e, append-nil rs) h
  ]

  serve_one-IsServedBy :
      (rs : List QueueEnvelope) (raw : QueueEnvelope) (l : Loop S)
      → IsServedBy rs l
      → IsServedBy (rs ++ keep_if (in_group g) (raw ∷ [])) (serve_one services raw l)
  unfolding serve_one
  serve_one-IsServedBy rs raw l h = elim (Bool-cases (mem (group_of raw) l.failed_groups)) [
    | inl f ↦ rw f (skip-IsServedBy rs raw l f h)
    | inr n ↦ rw n (conclude-IsServedBy rs raw l (handle services raw l.world) n h)
  ]

  serve-IsServedBy :
      (rs more : List QueueEnvelope) (l : Loop S)
      → IsServedBy rs l
      → IsServedBy (rs ++ keep_if (in_group g) more) (serve services more l)
  unfolding serve
  serve-IsServedBy rs [] l h = rw (append-nil rs) h
  serve-IsServedBy rs (raw ∷ more) l h =
      rw
        (ap (λ xs. rs ++ xs) (keep_if-append (in_group g) (raw ∷ []) more)
          ∙ sym (append_assoc rs (keep_if (in_group g) (raw ∷ [])) (keep_if (in_group g) more)))
        (serve-IsServedBy (rs ++ keep_if (in_group g) (raw ∷ [])) more (serve_one services raw l)
          (serve_one-IsServedBy rs raw l h))

  -- A group whose commands are all of one kind keeps its order through the batches.
  drain-IsServedBy :
      (k : ℕ) (rs : List QueueEnvelope) (polls : List Poll) (l : Loop S)
      → All (λ raw. is_background raw ≡ k) (keep_if (in_group g) (received polls))
      → IsServedBy rs l
      → IsServedBy (rs ++ keep_if (in_group g) (received polls)) (drain services polls l).1
  unfolding drain
  drain-IsServedBy k rs [] l u h = rw (append-nil rs) h
  drain-IsServedBy k rs (Poll.batch [] ∷ polls) l u h = rw (append-nil rs) h
  drain-IsServedBy k rs (Poll.raised e ∷ polls) l u h = rw (append-nil rs) h
  drain-IsServedBy k rs (Poll.expired ∷ polls) l u h = rw (append-nil rs) h
  drain-IsServedBy k rs (Poll.batch (raw ∷ rest) ∷ polls) l u h =
      let mine = keep_if (in_group g) (raw ∷ rest) in
      let split = keep_if-append (in_group g) (raw ∷ rest) (received polls) in
      let uniform =
        All-append (λ raw. is_background raw ≡ k) mine (keep_if (in_group g) (received polls))
          (subst (All (λ raw. is_background raw ≡ k)) split u) in
      let served =
        serve-IsServedBy rs (in_order (raw ∷ rest)) (with_receipts services (raw ∷ rest) l) h in
      rw
        (ap (λ xs. rs ++ xs) split
          ∙ sym (append_assoc rs mine (keep_if (in_group g) (received polls))))
        (drain-IsServedBy k (rs ++ mine) polls
          (serve services (in_order (raw ∷ rest)) (with_receipts services (raw ∷ rest) l)) uniform.1
          (subst
            (λ xs.
              IsServedBy (rs ++ xs)
                (serve services (in_order (raw ∷ rest)) (with_receipts services (raw ∷ rest) l)))
            (keep_if-in_order k (in_group g) (raw ∷ rest) uniform.0) served))

  -- Where the commands of a group that were received are all profile synchronisations, or none of
  -- them is, the loop treats them as a queue of their own: it attempts them in the order of their
  -- arrival, none twice and none left out, up to the first that fails, and nothing of the group
  -- after that.
  pub drain-IsFifo :
      (k : ℕ) (polls : List Poll) (w : World S)
      → All (λ raw. is_background raw ≡ k) (keep_if (in_group g) (received polls))
      → IsFifo
          (keep_if (in_group g) (received polls))
          (attempts_of g (drain services polls (first_loop services w)).1.attempts)
  unfolding has_failure
  drain-IsFifo k polls w u = (drain-IsServedBy k [] polls (first_loop services w) u (tt, refl)).0
