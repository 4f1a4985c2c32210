-- ===== src/Store/Events/Details.antt =====
-- The methods of `MemoryEventRepository` that edit a game's details and bind its Telegram group.
use rolebot_hse.Base.{
  ℕ, String, Bool, true, false, ◌||◌, some, ◌==◌, ◌!=◌, string_eq, nat_eq, option_eq, any_of,
  is_some, if◌then◌else◌,
}
use rolebot_hse.Base.Int.{ℤ, int_eq}
use rolebot_hse.Errors.{Result}
use rolebot_hse.Dict.{values}
use rolebot_hse.Domain.Event.{Date, Datetime, RegistrationQuestion, total_amount}
use rolebot_hse.Store.Events.State.{Rows, on_event, on_event_or_raise}

unfoldable pub set_player_amount : Datetime → String → ℕ → Rows → Rows × Bool
unfolding on_event
set_player_amount now event_id player_amount = on_event event_id (λ e. (
  record e { player_amount = player_amount; updated_at = now },
  e.player_amount != player_amount,
))

unfoldable pub set_registration_question :
    Datetime → String → RegistrationQuestion → Rows → Result Rows
unfolding on_event_or_raise total_amount
set_registration_question now event_id question = on_event_or_raise event_id (λ e. record e {
  registration_question = some question;
  player_amount = total_amount question.options;
  updated_at = now;
})

unfoldable pub set_details : Datetime → String → String → Date → Rows → Rows × Bool
unfolding on_event
set_details now event_id name game_date = on_event event_id (λ e.
    if e.name != name || e.game_date != some game_date
    then (record e { name = name; game_date = some game_date; updated_at = now }, true)
    else (e, false))

-- The test of `bind_telegram_chat` on all rows.
unfoldable pub is_bound : ℤ → Rows → Bool
is_bound chat_id rows = any_of (λ e. e.telegram_chat_id == some chat_id) (values rows)

unfoldable pub bind_telegram_chat : Datetime → String → ℤ → Rows → Rows × Bool
unfolding on_event is_bound
bind_telegram_chat now event_id chat_id rows =
    let taken = is_bound chat_id rows in
    on_event event_id
      (λ e.
        if is_some e.archived_at
        then (e, false)
        else if is_some e.telegram_chat_id
        then (e, e.telegram_chat_id == some chat_id)
        else if taken
        then (e, false)
        else (record e { telegram_chat_id = some chat_id; updated_at = now }, true))
      rows

unfoldable pub set_telegram_chat_invite_link : Datetime → String → ℤ → String → Rows → Rows × Bool
unfolding on_event
set_telegram_chat_invite_link now event_id chat_id invite_link = on_event event_id (λ e.
    if e.telegram_chat_id != some chat_id || is_some e.telegram_chat_invite_link
    then (e, false)
    else (record e { telegram_chat_invite_link = some invite_link; updated_at = now }, true))
