-- ===== src/Application/Worker/Outcome.antt =====
-- What `run` returns, and what it then did.
use mathlib.Core.List.{append-nil, append_assoc}
use rolebot_hse.Base.{
  ℕ, String, ◌≡◌, refl, sym, ap, ◌∙◌, true, Option, none, some, List, [], ◌∷◌, ◌++◌, map, mem,
  length, length-append, arith, Bool-cases, inl, inr, ◌⊎◌, string_eq,
}
use rolebot_hse.Errors.{Result, ok, err, Error}
use rolebot_hse.Application.Worker.{QueueEnvelope, World, Services}
use rolebot_hse.Application.Worker.Handle.{handle}
use rolebot_hse.Application.Worker.Drain.{
  Poll, Loop, group_of, in_order, conclude, serve_one, serve, with_receipts, outcome, drain,
  first_loop, first_error, run,
}
use rolebot_hse.Application.Worker.Log.{Attempt}

-- The commands in the order of the loop: a batch is sorted before it is served.
unfoldable pub scheduled : List Poll → List QueueEnvelope
scheduled [] = []
scheduled (Poll.batch [] ∷ polls) = []
scheduled (Poll.batch (raw ∷ rest) ∷ polls) = in_order (raw ∷ rest) ++ scheduled polls
scheduled (Poll.raised e ∷ polls) = []
scheduled (Poll.expired ∷ polls) = []

-- Each command once, and each handling returned.
abbrev pub all_handled : List QueueEnvelope → List Attempt
all_handled commands = map (λ raw. (raw, true)) commands

all_handled-append :
    (xs ys : List QueueEnvelope) → all_handled (xs ++ ys) ≡ all_handled xs ++ all_handled ys
all_handled-append [] ys = refl
all_handled-append (x ∷ xs) ys = ap (λ l. (x, true) ∷ l) (all_handled-append xs ys)

not_in : (x : String) → mem x [] ≡ true → ⊥
not_in x h = cc

some-first_error : (o : Option Error) (d : Error) → (e : Error) × (first_error o d ≡ some e)
some-first_error none d = (d, refl)
some-first_error (some e) d = (e, refl)

module _ {S : Type 0} (services : Services S) where
  -- No failure so far, after the commands `rs`.
  record IsClean (rs : List QueueEnvelope) (l : Loop S) : Type 0 where
    free : l.failed_groups ≡ []
    handled : l.attempts ≡ all_handled rs
    counted : l.processed ≡ length rs

  -- A failure, which is kept, or none so far.
  abbrev IsTold : List QueueEnvelope → Loop S → Type 0
  IsTold rs l = IsClean rs l ⊎ ((e : Error) × (l.retryable_error ≡ some e))

  conclude-IsTold :
      (rs : List QueueEnvelope) (raw : QueueEnvelope) (l : Loop S) (r : Result (Unit {0}) × World S)
      → IsTold rs l
      → IsTold (rs ++ raw ∷ []) (conclude services raw l r)
  conclude-IsTold rs raw l (ok _, w) (inl c) = inl (record {
    free = c.free;
    handled = ap (λ a. a ++ (raw, true) ∷ []) c.handled ∙ sym (all_handled-append rs (raw ∷ []));
    counted = ground (arith, c.counted, length-append rs (raw ∷ []));
  })
  conclude-IsTold rs raw l (ok _, w) (inr (e, h)) = inr (e, h)
  conclude-IsTold rs raw l (err d, w) _ = inr (some-first_error l.retryable_error d)

  skip-IsTold :
      (rs : List QueueEnvelope) (raw : QueueEnvelope) (l : Loop S)
      → mem (group_of raw) l.failed_groups ≡ true
      → IsTold rs l
      → IsTold (rs ++ raw ∷ []) l
  skip-IsTold rs raw l f (inl c) =
      absurd (not_in (group_of raw) (sym (ap (λ groups. mem (group_of raw) groups) c.free) ∙ f))
  skip-IsTold rs raw l f (inr e) = inr e

  serve_one-IsTold :
      (rs : List QueueEnvelope) (raw : QueueEnvelope) (l : Loop S)
      → IsTold rs l
      → IsTold (rs ++ raw ∷ []) (serve_one services raw l)
  unfolding serve_one
  serve_one-IsTold rs raw l h = elim (Bool-cases (mem (group_of raw) l.failed_groups)) [
    | inl f ↦ rw f (skip-IsTold rs raw l f h)
    | inr n ↦ rw n (conclude-IsTold rs raw l (handle services raw l.world) h)
  ]

  serve-IsTold :
      (rs more : List QueueEnvelope) (l : Loop S)
      → IsTold rs l
      → IsTold (rs ++ more) (serve services more l)
  unfolding serve
  serve-IsTold rs [] l h = rw (append-nil rs) h
  serve-IsTold rs (raw ∷ more) l h =
      rw (sym (append_assoc rs (raw ∷ []) more)) (
        serve-IsTold (rs ++ raw ∷ []) more (serve_one services raw l) (serve_one-IsTold rs raw l h))

  abbrev reported : ℕ → Option Error → Result ℕ
  reported m e = elim e [ some d ↦ err d | none ↦ ok m ]

  told-ok : (m n : ℕ) (e : Option Error) → reported m e ≡ ok n → m ≡ n
  told-ok m n none h = cc
  told-ok m n (some d) h = cc

  told-outcome :
      (n : ℕ) (rs : List QueueEnvelope) (l : Loop S)
      → IsTold rs l
      → outcome services l ≡ ok n
      → (l.attempts ≡ all_handled rs) × (n ≡ length rs)
  told-outcome n rs l (inr (e, h)) o = cc
  told-outcome n rs l (inl c) o =
      (c.handled, sym (told-ok l.processed n l.retryable_error o) ∙ c.counted)

  drain-told :
      (n : ℕ) (rs : List QueueEnvelope) (polls : List Poll) (l : Loop S)
      → IsTold rs l
      → (drain services polls l).0 ≡ ok n
      → ((drain services polls l).1.attempts ≡ all_handled (rs ++ scheduled polls))
        × (n ≡ length (rs ++ scheduled polls))
  unfolding drain scheduled
  drain-told n rs [] l h o = rw (append-nil rs) (told-outcome n rs l h o)
  drain-told n rs (Poll.batch [] ∷ polls) l h o = rw (append-nil rs) (told-outcome n rs l h o)
  drain-told n rs (Poll.raised e ∷ polls) l h o = cc
  drain-told n rs (Poll.expired ∷ polls) l h o = cc
  drain-told n rs (Poll.batch (raw ∷ rest) ∷ polls) l h o =
      let l' = serve services (in_order (raw ∷ rest)) (with_receipts services (raw ∷ rest) l) in
      rw (sym (append_assoc rs (in_order (raw ∷ rest)) (scheduled polls))) (
        drain-told n (rs ++ in_order (raw ∷ rest)) polls l'
          (serve-IsTold rs (in_order (raw ∷ rest)) (with_receipts services (raw ∷ rest) l) (elim h [
            | inl c ↦ inl (record { free = c.free; handled = c.handled; counted = c.counted })
            | inr e ↦ inr e
          ]))
          o)

  -- Where a run returns a number, every command of the batches that it received was handled once,
  -- batch after batch with the profile synchronisations of each last, no handling raised, and the
  -- number is that of these commands.
  pub run-ok :
      (polls : List Poll) (w : World S) (n : ℕ)
      → (run services polls w).0 ≡ ok n
      → ((run services polls w).1.0.attempts ≡ all_handled (scheduled polls))
        × (n ≡ length (scheduled polls))
  unfolding run
  run-ok polls w n o =
      drain-told n [] polls (first_loop services w)
        (inl (record { free = refl; handled = refl; counted = refl })) o
