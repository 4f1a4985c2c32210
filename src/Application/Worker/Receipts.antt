-- ===== src/Application/Worker/Receipts.antt =====
-- No receipt that the loop took is lost: `finally` releases it, unless its command was handled.
use rolebot_hse.Base.{
  String, ◌≡◌, refl, ap, Bool, true, false, ◌&&◌, ◌||◌, List, [], ◌∷◌, ◌++◌, ◌==◌, ◌!=◌, string_eq,
  mem, any_of, keep_if, arith, Bool-cases, inl, inr, if◌then◌else◌,
}
use rolebot_hse.Errors.{Result, ok, err}
use rolebot_hse.Application.Worker.{QueueEnvelope, World, Services}
use rolebot_hse.Application.Worker.Handle.{handle}
use rolebot_hse.Application.Worker.Drain.{
  Poll, Loop, group_of, in_order, add_receipts, conclude, serve_one, serve, with_receipts, drain,
  first_loop, run,
}
use rolebot_hse.Application.Worker.Log.{Attempt, received}

-- A command with this receipt was handled, and the handling returned.
abbrev pub was_handled : String → List Attempt → Bool
was_handled r attempts = any_of (λ a. a.1 && r == a.0.receipt_handle) attempts

-- The receipts that are still to be released, or that a handled command had.
abbrev pub is_kept : {S : Type 0} → String → Loop S → Bool
is_kept r l = mem r l.pending_receipts || was_handled r l.attempts

abbrev pub has_receipt : String → List QueueEnvelope → Bool
has_receipt r envelopes = any_of (λ raw. r == raw.receipt_handle) envelopes

was_handled-append :
    (r : String) (log : List Attempt) (a : Attempt)
    → was_handled r (log ++ a ∷ []) ≡ (was_handled r log || (a.1 && r == a.0.receipt_handle))
was_handled-append r [] a = ground arith
was_handled-append r (x ∷ log) a = ground (arith, was_handled-append r log a)

mem-keep_if :
    (r s : String) (pending : List String)
    → (mem r (keep_if (λ x. x != s) pending) || r == s) ≡ (mem r pending || r == s)
mem-keep_if r s [] = refl
mem-keep_if r s (x ∷ pending) = ground (
  arith,
  mem-keep_if r s pending,
  string_eq.beq_iff r x,
  string_eq.beq_iff x s,
  string_eq.beq_iff r s,
)

mem-cons : (r s : String) (pending : List String) → mem r (s ∷ pending) ≡ (r == s || mem r pending)
mem-cons r s pending = ground arith

mem-member :
    (r s : String) (pending : List String)
    → mem s pending ≡ true
    → mem r pending ≡ (mem r pending || r == s)
mem-member r s pending h = elim (Bool-cases (r == s)) [
  | inl e ↦ ground (arith, ap (λ x. mem x pending) ((string_eq.beq_iff r s).0 e), h, e)
  | inr n ↦ ground (arith, n)
]

has_receipt-append :
    (r : String) (xs ys : List QueueEnvelope)
    → has_receipt r (xs ++ ys) ≡ (has_receipt r xs || has_receipt r ys)
has_receipt-append r [] ys = refl
has_receipt-append r (x ∷ xs) ys = ground (arith, has_receipt-append r xs ys)

add_receipts-mem :
    (r : String) (envelopes : List QueueEnvelope) (pending : List String)
    → mem r (add_receipts envelopes pending) ≡ (mem r pending || has_receipt r envelopes)
unfolding add_receipts
add_receipts-mem r [] pending = ground arith
add_receipts-mem r (raw ∷ rest) pending = ground (
  arith,
  add_receipts-mem r rest
      (if mem raw.receipt_handle pending then pending else raw.receipt_handle ∷ pending),
  Bool-cases (mem raw.receipt_handle pending),
  mem-member r raw.receipt_handle pending,
  mem-cons r raw.receipt_handle pending,
)

module _ {S : Type 0} (services : Services S) (r : String) where
  conclude-is_kept :
      (raw : QueueEnvelope) (l : Loop S) (result : Result (Unit {0}) × World S)
      → is_kept r l ≡ true
      → is_kept r (conclude services raw l result) ≡ true
  conclude-is_kept raw l (ok _, w) h = ground (
    arith,
    was_handled-append r l.attempts (raw, true),
    mem-keep_if r raw.receipt_handle l.pending_receipts,
    h,
  )
  conclude-is_kept raw l (err e, w) h =
      ground (arith, was_handled-append r l.attempts (raw, false), h)

  serve_one-is_kept :
      (raw : QueueEnvelope) (l : Loop S)
      → is_kept r l ≡ true
      → is_kept r (serve_one services raw l) ≡ true
  unfolding serve_one
  serve_one-is_kept raw l h = elim (Bool-cases (mem (group_of raw) l.failed_groups)) [
    | inl f ↦ rw f h
    | inr n ↦ rw n (conclude-is_kept raw l (handle services raw l.world) h)
  ]

  serve-is_kept :
      (rest : List QueueEnvelope) (l : Loop S)
      → is_kept r l ≡ true
      → is_kept r (serve services rest l) ≡ true
  unfolding serve
  serve-is_kept [] l h = h
  serve-is_kept (raw ∷ rest) l h =
      serve-is_kept rest (serve_one services raw l) (serve_one-is_kept raw l h)

  with_receipts-is_kept :
      (envelopes : List QueueEnvelope) (l : Loop S)
      → (is_kept r l || has_receipt r envelopes) ≡ true
      → is_kept r (with_receipts services envelopes l) ≡ true
  with_receipts-is_kept envelopes l h =
      ground (arith, add_receipts-mem r envelopes l.pending_receipts, h)

  drain-is_kept :
      (polls : List Poll) (l : Loop S)
      → (is_kept r l || has_receipt r (received polls)) ≡ true
      → is_kept r (drain services polls l).1 ≡ true
  unfolding drain
  drain-is_kept [] l h = ground (arith, h)
  drain-is_kept (Poll.batch [] ∷ polls) l h = ground (arith, h)
  drain-is_kept (Poll.raised e ∷ polls) l h = ground (arith, h)
  drain-is_kept (Poll.expired ∷ polls) l h = ground (arith, h)
  drain-is_kept (Poll.batch (raw ∷ rest) ∷ polls) l h =
      drain-is_kept polls
        (serve services (in_order (raw ∷ rest)) (with_receipts services (raw ∷ rest) l))
        (elim (Bool-cases (is_kept r l || has_receipt r (raw ∷ rest))) [
          | inl k ↦ ground (
            arith,
            serve-is_kept (in_order (raw ∷ rest)) (with_receipts services (raw ∷ rest) l)
                (with_receipts-is_kept (raw ∷ rest) l k),
          )
          | inr n ↦ ground (arith, n, h, has_receipt-append r (raw ∷ rest) (received polls))
        ])

  -- However a run ends, a receipt that it received is among those that it releases at its end, or
  -- is that of a command whose handling returned.
  pub run-is_kept :
      (polls : List Poll) (w : World S)
      → has_receipt r (received polls) ≡ true
      → (mem r (run services polls w).1.1 || was_handled r (run services polls w).1.0.attempts)
        ≡ true
  unfolding run
  run-is_kept polls w h = drain-is_kept polls (first_loop services w) h
