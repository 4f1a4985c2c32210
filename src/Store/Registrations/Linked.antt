-- ===== src/Store/Registrations/Linked.antt =====
-- The methods of `MemoryRegistrationRepository` on all rows of one person, who may have a linked
-- profile on the other platform.
use rolebot_hse.Base.{
  bool_eq, String, Bool, true, false, ◌||◌, Option, none, some, List, [], ◌∷◌, ◌==◌, ◌!=◌,
  string_eq, option_eq, pair_eq, is_none, if◌then◌else◌,
}
use rolebot_hse.Errors.{Result, ok, err, Error}
use rolebot_hse.Dict.{get}
use rolebot_hse.Domain.Event.{Datetime}
use rolebot_hse.Domain.Registration.{Registration}
use rolebot_hse.Store.Registrations.State.{Rows}
use rolebot_hse.Store.Registrations.Updates.{
  unless_applied, confirmed_by, cancelled_by, with_character_wish, with_wish_play,
}

-- The loop that these methods share: `f` changes the row of each key that is there and was not
-- last changed by this operation. The last argument and the result say whether a row changed.
unfoldable pub change_each :
    String → String → (Registration → Registration) → List String → Rows → Bool → Rows × Bool
change_each event_id operation_id f [] rows changed = (rows, changed)
change_each event_id operation_id f (k ∷ ks) rows changed =
    let step = unless_applied operation_id (event_id, k) f rows (get (event_id, k) rows) in
    change_each event_id operation_id f ks step.0 (changed || step.1)

-- The first loop of `confirm_linked`.
abbrev pub cancel_replaced : Datetime → Option String → String → List String → Rows → Rows × Bool
cancel_replaced now none operation_id keys rows = (rows, false)
cancel_replaced now (some event_id) operation_id keys rows =
    change_each event_id operation_id (cancelled_by now operation_id) keys rows false

abbrev pub is_empty {ℓ} : {A : Type ℓ} → List A → Bool
is_empty [] = true
is_empty (_ ∷ _) = false

unfoldable pub confirm_linked :
    Datetime
    → String
    → String
    → List String
    → String
    → Option String
    → List String
    → Rows
    → Result (Rows × Bool)
unfolding change_each
confirm_linked now event_id operation_id keys character_wish replaced_event_id replaced_keys rows =
    let first = cancel_replaced now replaced_event_id operation_id replaced_keys rows in
    if is_none replaced_event_id != is_empty replaced_keys
    then err Error.value_error
    else if replaced_event_id == some event_id
    then err Error.value_error
    else ok (
        change_each event_id operation_id (confirmed_by now operation_id character_wish) keys
          first.0 first.1)

unfoldable pub update_linked_character_wish :
    Datetime → String → String → List String → String → Rows → Rows × Bool
update_linked_character_wish now event_id operation_id keys character_wish rows =
    change_each event_id operation_id (with_character_wish now operation_id character_wish) keys
      rows false

unfoldable pub update_linked_co_player_wish :
    Datetime → String → String → List String → String → Rows → Rows × Bool
update_linked_co_player_wish now event_id operation_id keys wish_play rows =
    change_each event_id operation_id (with_wish_play now operation_id wish_play) keys rows false

unfoldable pub cancel_linked : Datetime → String → String → List String → Rows → Rows × Bool
cancel_linked now event_id operation_id keys rows =
    change_each event_id operation_id (cancelled_by now operation_id) keys rows false
