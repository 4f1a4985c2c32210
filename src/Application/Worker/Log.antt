-- ===== src/Application/Worker/Log.antt =====
-- The attempts of the loop as a list, and the abstract worker of one group of the queue.
use rolebot_hse.Base.{
  ℕ, String, ◌≡◌, refl, ◌∙◌, Bool, true, false, List, [], ◌∷◌, ◌++◌, ◌==◌, string_eq, mem, beq_refl,
  keep_if, All, arith, if◌then◌else◌,
}
use rolebot_hse.Base.Order.{nat_order}
use rolebot_hse.Base.Sort.{IsSorted, NotBefore, sort_by_sorted, keep_if-sort_by}
use rolebot_hse.Application.Worker.{QueueEnvelope}
use rolebot_hse.Application.Worker.Drain.{Poll, group_of, is_background, in_order}

abbrev pub Attempt : Type 0
Attempt = QueueEnvelope × Bool

-- The abstract worker of one group: it takes the commands in order and stops at the first that
-- fails. The second list is what it attempted, and how each attempt went.
abbrev pub IsFifo : List QueueEnvelope → List Attempt → Type 0
IsFifo [] [] = Unit {0}
IsFifo [] (_ ∷ _) = ⊥
IsFifo (raw ∷ rest) [] = ⊥
IsFifo (raw ∷ rest) ((x, true) ∷ attempts) = (x ≡ raw) × IsFifo rest attempts
IsFifo (raw ∷ rest) ((x, false) ∷ []) = x ≡ raw
IsFifo (raw ∷ rest) ((x, false) ∷ _ ∷ _) = ⊥

-- The commands and the attempts of a group.
abbrev pub in_group : String → QueueEnvelope → Bool
in_group g raw = group_of raw == g

abbrev pub attempts_of : String → List Attempt → List Attempt
attempts_of g attempts = keep_if (λ a. in_group g a.0) attempts

-- What `receive` returned before the loop ended, in order of arrival.
abbrev pub received : List Poll → List QueueEnvelope
received [] = []
received (Poll.batch [] ∷ polls) = []
received (Poll.batch (raw ∷ rest) ∷ polls) = (raw ∷ rest) ++ received polls
received (Poll.raised e ∷ polls) = []
received (Poll.expired ∷ polls) = []

unfoldable pub has_failure : List Attempt → Bool
has_failure [] = false
has_failure ((raw, true) ∷ rest) = has_failure rest
has_failure ((raw, false) ∷ rest) = true

pub IsFifo-stopped :
    (rs : List QueueEnvelope) (log : List Attempt) (more : List QueueEnvelope)
    → IsFifo rs log
    → has_failure log ≡ true
    → IsFifo (rs ++ more) log
unfolding has_failure
IsFifo-stopped [] [] more h f = cc
IsFifo-stopped (r ∷ rs) [] more h f = h
IsFifo-stopped [] (a ∷ log) more h f = absurd h
IsFifo-stopped (r ∷ rs) ((x, true) ∷ log) more h f = (h.0, IsFifo-stopped rs log more h.1 f)
IsFifo-stopped (r ∷ rs) ((x, false) ∷ []) more h f = h
IsFifo-stopped (r ∷ rs) ((x, false) ∷ _ ∷ _) more h f = h

pub IsFifo-served :
    (rs : List QueueEnvelope) (log : List Attempt) (raw : QueueEnvelope) (b : Bool)
    → IsFifo rs log
    → has_failure log ≡ false
    → IsFifo (rs ++ raw ∷ []) (log ++ (raw, b) ∷ [])
unfolding has_failure
IsFifo-served [] [] raw true h f = (refl, tt)
IsFifo-served [] [] raw false h f = refl
IsFifo-served [] (a ∷ log) raw b h f = absurd h
IsFifo-served (r ∷ rs) [] raw b h f = absurd h
IsFifo-served (r ∷ rs) ((x, true) ∷ log) raw b h f = (h.0, IsFifo-served rs log raw b h.1 f)
IsFifo-served (r ∷ rs) ((x, false) ∷ log) raw b h f = cc

pub has_failure-append :
    (log : List Attempt) (raw : QueueEnvelope) (b : Bool)
    → has_failure (log ++ (raw, b) ∷ []) ≡ (if b then has_failure log else true)
unfolding has_failure
has_failure-append [] raw true = refl
has_failure-append [] raw false = refl
has_failure-append ((x, true) ∷ log) raw b = has_failure-append log raw b
has_failure-append ((x, false) ∷ log) raw true = refl
has_failure-append ((x, false) ∷ log) raw false = refl

-- One key for all: sorting changes nothing.
All-NotBefore_same :
    (k : ℕ) (x : QueueEnvelope) (xs : List QueueEnvelope)
    → is_background x ≡ k
    → All (λ y. is_background y ≡ k) xs
    → All (NotBefore is_background x) xs
All-NotBefore_same k x [] e h = tt
All-NotBefore_same k x (y ∷ ys) e h =
    (rw (e, h.0) (nat_order.lt_irrefl k), All-NotBefore_same k x ys e h.1)

same-IsSorted :
    (k : ℕ) (xs : List QueueEnvelope)
    → All (λ y. is_background y ≡ k) xs
    → IsSorted is_background xs
same-IsSorted k [] h = tt
same-IsSorted k (x ∷ xs) h = (All-NotBefore_same k x xs h.0 h.1, same-IsSorted k xs h.1)

pub keep_if-in_order :
    (k : ℕ) (p : QueueEnvelope → Bool) (xs : List QueueEnvelope)
    → All (λ y. is_background y ≡ k) (keep_if p xs)
    → keep_if p (in_order xs) ≡ keep_if p xs
unfolding in_order
keep_if-in_order k p xs h =
    keep_if-sort_by is_background p xs
    ∙ sort_by_sorted is_background (keep_if p xs) (same-IsSorted k (keep_if p xs) h)

pub other_group : (g h : String) → (h == g) ≡ false → (g == h) ≡ false
other_group g h e = ground (arith, string_eq.beq_iff g h, string_eq.beq_iff h g)

pub mem-head : (g : String) (failed : List String) → mem g (g ∷ failed) ≡ true
mem-head g failed = rw (mem, beq_refl g) refl

pub mem-tail :
    (g h : String) (failed : List String) → (g == h) ≡ false → mem g (h ∷ failed) ≡ mem g failed
mem-tail g h failed e = rw (mem, e) refl

pub All-append {ℓ κ} :
    {A : Type ℓ} (P : A → Type κ) (xs ys : List A) → All P (xs ++ ys) → All P xs × All P ys
All-append P [] ys h = (tt, h)
All-append P (x ∷ xs) ys h = ((h.0, (All-append P xs ys h.1).0), (All-append P xs ys h.1).1)
