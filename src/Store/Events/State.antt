-- ===== src/Store/Events/State.antt =====
-- The rows and leaders of `MemoryEventRepository`, with the methods that find, create and delete
-- events and that keep the leaders.
-- A value that a method assigns is taken to meet the constraints on its field, as pydantic has
-- checked it where it was made.
use rolebot_hse.Base.{
  ℕ, String, ◌≡◌, Bool, true, false, not, Option, none, some, List, [], ◌∷◌, ◌==◌, ◌!=◌, string_eq,
  nat_eq, option_eq, pair_eq, mem, keep_if, is_some, arith, Option-cases, inl, inr, beq_refl,
  if◌then◌else◌,
}
use rolebot_hse.Base.Int.{ℤ, int_eq}
use rolebot_hse.Base.Order.{nat_order, text_order, pair_order}
use rolebot_hse.Base.Sort.{sort_by}
use rolebot_hse.Errors.{Result, ok, err, Error}
use rolebot_hse.Dict.{Dict, get, put, pop, values, get-put}
use rolebot_hse.Domain.Enums.{Platform, platform_eq, platform_value}
use rolebot_hse.Domain.Event.{Event}

abbrev pub Rows : Type 0
Rows = Dict String Event

-- `(leader.platform, leader.platform_user_id)`, which stands for the `BotIdentity` too
abbrev pub Identity : Type 0
Identity = Platform × ℕ

pub record MemoryEventRepository : Type 0 where
  pub rows : Rows
  pub leaders : Dict String (List Identity)

-- A method on the event of an id: nothing is changed, and `False` returned, where there is none.
unfoldable pub on_event : String → (Event → Event × Bool) → Rows → Rows × Bool
on_event event_id f rows = elim (get event_id rows) [
  | none ↦ (rows, false)
  | some e ↦ (put event_id (f e).0 rows, (f e).1)
]

-- A method that subscripts `self.rows[event_id]` and returns nothing.
unfoldable pub on_event_or_raise : String → (Event → Event) → Rows → Result Rows
on_event_or_raise event_id f rows = elim (get event_id rows) [
  | none ↦ err Error.key_error
  | some e ↦ ok (put event_id (f e) rows)
]

-- `None if not matches else matches[0]`, where two matches are an error
abbrev pub at_most_one : List Event → Result (Option Event)
at_most_one [] = ok none
at_most_one (e ∷ []) = ok (some e)
at_most_one (_ ∷ _ ∷ _) = err Error.runtime_error

unfoldable pub get_by_signup_token : String → Rows → Result (Option Event)
get_by_signup_token signup_token rows =
    at_most_one (keep_if (λ e. e.signup_token == some signup_token) (values rows))

unfoldable pub get_by_telegram_chat_id : ℤ → Rows → Result (Option Event)
get_by_telegram_chat_id chat_id rows =
    at_most_one (keep_if (λ e. e.telegram_chat_id == some chat_id) (values rows))

-- A set comprehension: a list without repetitions.
unfoldable pub to_set : List Identity → List Identity
to_set [] = []
to_set (i ∷ is) = let rest = to_set is in if mem i rest then rest else i ∷ rest

unfoldable pub create : Event → List Identity → MemoryEventRepository → Result MemoryEventRepository
unfolding to_set
create event leaders repository =
    if is_some (get event.event_id repository.rows)
    then err Error.value_error
    else ok (record {
      rows = put event.event_id event repository.rows;
      leaders = put event.event_id (to_set leaders) repository.leaders;
    })

abbrev pub leaders_of : String → MemoryEventRepository → List Identity
leaders_of event_id repository = elim (get event_id repository.leaders) [ none ↦ [] | some is ↦ is ]

unfoldable pub add_leader : String → Identity → MemoryEventRepository → MemoryEventRepository × Bool
add_leader event_id leader repository =
    let event_leaders = leaders_of event_id repository in
    if not (is_some (get event_id repository.rows))
    then (repository, false)
    else if mem leader event_leaders
    then (repository, false)
    else (
      record repository { leaders = put event_id (leader ∷ event_leaders) repository.leaders },
      true,
    )

unfoldable pub remove_leader :
    String → Identity → MemoryEventRepository → MemoryEventRepository × Bool
remove_leader event_id leader repository =
    let event_leaders = leaders_of event_id repository in
    if mem leader event_leaders
    then (
      record repository {
        leaders = put event_id (keep_if (λ i. i != leader) event_leaders) repository.leaders;
      },
      true,
    )
    else (repository, false)

unfoldable pub leader_key : Identity → String × ℕ
unfolding platform_value
leader_key (platform, user_id) = (platform_value platform, user_id)

unfoldable pub list_leaders : String → MemoryEventRepository → List Identity
unfolding leader_key
list_leaders event_id repository = sort_by leader_key (leaders_of event_id repository)

unfoldable pub delete : String → MemoryEventRepository → MemoryEventRepository × Bool
delete event_id repository = (
  record { rows = pop event_id repository.rows; leaders = pop event_id repository.leaders },
  is_some (get event_id repository.rows),
)

-- What a method on one event does to each row.
pub get-on_event :
    (event_id other : String) (f : Event → Event × Bool) (rows : Rows)
    → get other (on_event event_id f rows).0 ≡ (
        if event_id == other
        then elim (get other rows) [ none ↦ none | some e ↦ some (f e).0 ]
        else get other rows)
unfolding on_event
get-on_event event_id other f rows = elim (Option-cases (get event_id rows)) [
  | inl e ↦ ground (arith, e, string_eq.beq_iff event_id other)
  | inr (v, e) ↦
      ground (arith, e, string_eq.beq_iff event_id other, get-put event_id other (f v).0 rows)
]

pub on_event_found :
    (event_id : String) (f : Event → Event × Bool) (rows : Rows) (e : Event)
    → get event_id rows ≡ some e
    → on_event event_id f rows ≡ (put event_id (f e).0 rows, (f e).1)
unfolding on_event
on_event_found event_id f rows e h = rw (h, on_event)

pub on_event_or_raise_found :
    (event_id : String) (f : Event → Event) (rows : Rows) (e : Event)
    → get event_id rows ≡ some e
    → on_event_or_raise event_id f rows ≡ ok (put event_id (f e) rows)
unfolding on_event_or_raise
on_event_or_raise_found event_id f rows e h = rw (h, on_event_or_raise)

pub get-put_self :
    (event_id : String) (e : Event) (rows : Rows) → get event_id (put event_id e rows) ≡ some e
get-put_self event_id e rows = rw (get-put event_id event_id e rows) (rw (beq_refl event_id))
