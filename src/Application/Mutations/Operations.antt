-- ===== src/Application/Mutations/Operations.antt =====
-- The operations by who may ask for them, as lists apart from those of the dispatch.
use rolebot_hse.Base.{
  ◌≡◌, refl, sym, ap, ◌∙◌, Bool, true, false, List, [], ◌∷◌, mem, string_eq, option_eq, Bool-cases,
  inl, inr, ◌==◌, ◌⊎◌, arith,
}
use rolebot_hse.Domain.Enums.{platform_eq, Operation, operation_eq, status_eq}
use rolebot_hse.Application.Mutations.Apply.{administrative_operations, game_operations}

-- The operations that have their own branch before the check of the archive.
abbrev pub archive_operations : List Operation
archive_operations = Operation.unarchive_event ∷ Operation.delete_event ∷ []

-- The commands of those who run a game.
abbrev pub organiser_operations : List Operation
organiser_operations =
    Operation.update_event_details ∷ Operation.update_question ∷ Operation.update_player_amount
    ∷ Operation.open_registration ∷ Operation.open_confirmation
    ∷ Operation.send_confirmation_reminder ∷ Operation.send_confirmed_notification
    ∷ Operation.send_all_players_notification ∷ Operation.remove_participant
    ∷ Operation.remove_waiting_participants ∷ Operation.promote_reserve_participant
    ∷ Operation.close_event ∷ Operation.archive_event ∷ Operation.unarchive_event
    ∷ Operation.delete_event ∷ []

-- The commands of a player on a row of their own, other than the signup.
abbrev pub row_operations : List Operation
row_operations =
    Operation.update_character_wish ∷ Operation.update_answer ∷ Operation.update_co_player_wish
    ∷ Operation.cancel ∷ []

pub not_both : {b : Bool} → b ≡ false → b ≡ true → ⊥
not_both n h = cc

-- A test for membership, taken apart.
pub neither :
    (b c : Bool) → (elim b [ true ↦ true | false ↦ c ]) ≡ false → (b ≡ false) × (c ≡ false)
neither true c h = absurd (not_both h refl)
neither false c h = (refl, h)

pub not_in_two :
    (x a b : Operation) (rest : List Operation)
    → mem x (a ∷ b ∷ rest) ≡ false
    → ((x == a) ≡ false) × (((x == b) ≡ false) × (mem x rest ≡ false))
not_in_two x a b rest h =
    let first = neither (x == a) (mem x (b ∷ rest)) h in
    (first.0, neither (x == b) (mem x rest) first.1)

-- An operation of a list is none that the list has not.
pub apart_in :
    (x a : Operation) (ops : List Operation)
    → mem x ops ≡ true
    → mem a ops ≡ false
    → (x == a) ≡ false
apart_in x a ops h n = elim (Bool-cases (x == a)) [
  | inl e ↦ absurd (not_both n (ap (λ o. mem o ops) (sym ((operation_eq.beq_iff x a).0 e)) ∙ h))
  | inr e ↦ e
]

other_of :
    (b c : Bool)
    → b ≡ false
    → (elim b [ true ↦ true | false ↦ elim c [ true ↦ true | false ↦ false ] ]) ≡ true
    → c ≡ true
other_of true c n h = absurd (not_both n refl)
other_of false true n h = refl
other_of false false n h = h

pub last_of :
    (x : Operation)
    → (x == Operation.unarchive_event) ≡ false
    → mem x archive_operations ≡ true
    → (x == Operation.delete_event) ≡ true
last_of x n h = other_of (x == Operation.unarchive_event) (x == Operation.delete_event) n h

pub row-plain :
    (x : Operation)
    → mem x row_operations ≡ true
    → (mem x administrative_operations ≡ false) × (mem x game_operations ≡ false)
row-plain Operation.update_character_wish h = (refl, refl)
row-plain Operation.update_answer h = (refl, refl)
row-plain Operation.update_co_player_wish h = (refl, refl)
row-plain Operation.cancel h = (refl, refl)
row-plain _ h = absurd (not_both refl h)

pub organiser-cases :
    (x : Operation)
    → mem x organiser_operations ≡ true
    → (mem x archive_operations ≡ true) ⊎ (mem x administrative_operations ≡ true)
organiser-cases Operation.unarchive_event h = inl refl
organiser-cases Operation.delete_event h = inl refl
organiser-cases Operation.update_event_details h = inr refl
organiser-cases Operation.update_question h = inr refl
organiser-cases Operation.update_player_amount h = inr refl
organiser-cases Operation.open_registration h = inr refl
organiser-cases Operation.open_confirmation h = inr refl
organiser-cases Operation.send_confirmation_reminder h = inr refl
organiser-cases Operation.send_confirmed_notification h = inr refl
organiser-cases Operation.send_all_players_notification h = inr refl
organiser-cases Operation.remove_participant h = inr refl
organiser-cases Operation.remove_waiting_participants h = inr refl
organiser-cases Operation.promote_reserve_participant h = inr refl
organiser-cases Operation.close_event h = inr refl
organiser-cases Operation.archive_event h = inr refl
organiser-cases _ h = absurd (not_both refl h)

-- A master's command is none that the archive lets through.
pub administrative-apart :
    (x : Operation)
    → mem x administrative_operations ≡ true
    → (x == Operation.archive_event) ≡ false
    → mem x (Operation.scheduled_open_confirmation ∷ Operation.archive_event ∷ archive_operations)
      ≡ false
administrative-apart x h n = ground (
  arith,
  apart_in x Operation.scheduled_open_confirmation administrative_operations h refl,
  apart_in x Operation.unarchive_event administrative_operations h refl,
  apart_in x Operation.delete_event administrative_operations h refl,
  n,
)
