-- ===== src/Domain/Queues/Positions.antt =====
-- The position that a player is told, and the rosters.
use rolebot_hse.Base.{
  ℕ, zero, suc, ◌+◌, ◌≤◌, String, ◌≡◌, none, some, List, [], ◌∷◌, arith, string_eq, mem, take, leb,
  ltb,
}
use rolebot_hse.Domain.Event.{Event}
use rolebot_hse.Domain.Registration.{Registration}
use rolebot_hse.Domain.Queues.{active_queue, main_roster, keys_of, position_from, queue_position}

position_from-mem :
    (start n : ℕ) (key : String) (xs : List Registration) (p : ℕ)
    → position_from start key xs ≡ some p
    → (start ≤ p) × (ltb p (start + n) ≡ mem key (keys_of (take n xs)))
unfolding position_from
position_from-mem start n key [] p h = cc
position_from-mem start zero key (x ∷ xs) p h =
    ground (arith, position_from-mem (suc start) zero key xs p)
position_from-mem start (suc n) key (x ∷ xs) p h = ground (
  arith,
  position_from-mem (suc start) n key xs p,
  string_eq.beq_iff x.participant_key key,
  string_eq.beq_iff key x.participant_key,
)

-- In a game without a question, a player who is told the position `p` stands in the main roster
-- exactly if `p` is at most the number of players.
pub queue_position-main_roster :
    (event : Event) (rows : List Registration) (registration : Registration) (p : ℕ)
    → event.registration_question ≡ none
    → queue_position event rows registration ≡ some p
    → leb p event.player_amount
      ≡ mem registration.participant_key (keys_of (main_roster event rows))
unfolding queue_position main_roster
queue_position-main_roster event rows registration p q h = ground (
  arith,
  position_from-mem 1 event.player_amount registration.participant_key (active_queue rows none) p,
)
