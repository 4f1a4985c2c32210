-- ===== src/Store/Publisher.antt =====
-- `MemoryCommandPublisher` of larp_bot/adapters/memory.py.
use rolebot_hse.Base.{
  String, ◌≡◌, ◌≢◌, refl, true, false, List, [], ◌∷◌, ◌++◌, ◌!=◌, string_eq, all_of, arith,
  Bool-cases, inl, inr, if◌then◌else◌, All,
}
use rolebot_hse.Base.Reorder.{Differs, IsDistinct}
use rolebot_hse.Domain.Command.{OrderedRegistrationCommand}

abbrev pub Commands : Type 0
Commands = List OrderedRegistrationCommand

abbrev pub id_of : OrderedRegistrationCommand → String
id_of c = c.operation_id

unfoldable pub publish : OrderedRegistrationCommand → Commands → Commands
publish command commands =
    if all_of (λ existing. id_of existing != id_of command) commands
    then commands ++ command ∷ []
    else commands

all_of-append_last :
    (c d : OrderedRegistrationCommand) (cs : Commands)
    → id_of d ≡ id_of c
    → all_of (λ existing. id_of existing != id_of c) (cs ++ d ∷ []) ≡ false
all_of-append_last c d [] e = ground (arith, string_eq.beq_iff (id_of d) (id_of c), e)
all_of-append_last c d (b ∷ cs) e = ground (arith, all_of-append_last c d cs e)

-- A command is queued once: publishing one with the same operation id again changes nothing.
publish_again :
    (c d : OrderedRegistrationCommand) (cs : Commands)
    → d.operation_id ≡ c.operation_id
    → publish d (publish c cs) ≡ publish c cs
unfolding publish
publish_again c d cs e = elim (Bool-cases (all_of (λ existing. id_of existing != id_of c) cs)) [
  | inl new ↦ rw (new, e) (rw (all_of-append_last c c cs refl))
  | inr old ↦ rw (old, e) (rw old)
]

Differs-append :
    (c x : OrderedRegistrationCommand) (cs : Commands)
    → All (Differs id_of x) cs
    → id_of x ≢ id_of c
    → All (Differs id_of x) (cs ++ c ∷ [])
Differs-append c x [] h n = (n, tt)
Differs-append c x (b ∷ cs) h n = (h.0, Differs-append c x cs h.1 n)

IsDistinct-append :
    (c : OrderedRegistrationCommand) (cs : Commands)
    → all_of (λ existing. id_of existing != id_of c) cs ≡ true
    → IsDistinct id_of cs
    → IsDistinct id_of (cs ++ c ∷ [])
IsDistinct-append c [] h d = (tt, tt)
IsDistinct-append c (b ∷ cs) h d = (
  Differs-append c b cs d.0 (λ q. ground (arith, h, q, string_eq.beq_iff (id_of b) (id_of c))),
  IsDistinct-append c cs (ground (arith, h)) d.1,
)

-- Publishing keeps the operation ids of the queue pairwise different.
pub publish-IsDistinct :
    (c : OrderedRegistrationCommand) (cs : Commands)
    → IsDistinct (λ (d : OrderedRegistrationCommand). d.operation_id) cs
    → IsDistinct (λ (d : OrderedRegistrationCommand). d.operation_id) (publish c cs)
unfolding publish
publish-IsDistinct c cs d = elim (Bool-cases (all_of (λ existing. id_of existing != id_of c) cs)) [
  | inl new ↦ rw new (IsDistinct-append c cs new d)
  | inr old ↦ rw old d
]
