-- ===== src/Application/Notifications/Success.antt =====
-- The replies to a confirmation and to a signup; the first is kept within the length of a message.
use rolebot_hse.Base.{
  ◌≡◌, refl, ap, ℕ, ◌+◌, ◌-◌, ◌≤◌, ◌<◌, String, Bool, true, false, Option, none, some, List, ltb,
  leb, is_some, arith, Bool-cases, inl, inr, if◌then◌else◌,
}
use Prim.Native.String.append
use rolebot_hse.Base.Text.{◌&◌, decimal}
use rolebot_hse.Base.Words.{
  units, is_empty, rstrip, message_length, message_length-append, message_length-rstrip-le,
}
use rolebot_hse.Errors.{Result, ok, err, Error}
use rolebot_hse.Domain.Enums.{EventStatus, status_eq}
use rolebot_hse.Domain.Event.{
  Date, Datetime, Event, RegistrationQuestion, AnswerOption, question_option,
}
use rolebot_hse.Domain.Queues.{answer_capacity}
use rolebot_hse.Base.{◌==◌}
use rolebot_hse.Application.Notifications.{Library}
use rolebot_hse.Application.Notifications.Texts.{event_reference, reference, with_table_links}
use rolebot_hse.Application.Notifications.Masters.{
  Master, event_masters_text, master_contacts_section,
}

abbrev pub max_message_length : ℕ
max_message_length = 4096

-- The loop over the characters: the longest beginning within the budget, which is not below 0 where
-- a character fits in.
unfoldable pub kept : ℕ → String → String
kept budget String.[] = String.[]
kept budget (String.◌∷◌ c s) =
    let rest = kept (budget - units c) s in
    if ltb budget (units c) then String.[] else String.◌∷◌ c rest

message_length-kept-le : (budget : ℕ) (s : String) → message_length (kept budget s) ≤ budget
unfolding kept message_length
message_length-kept-le budget String.[] = omega arith
message_length-kept-le budget (String.◌∷◌ c s) = elim (Bool-cases (ltb budget (units c))) [
  | inl e ↦ rw e (omega arith)
  | inr e ↦ rw e (ground (arith, message_length-kept-le (budget - units c) s))
]

message_length-ellipsis : message_length "…" ≡ 1
unfolding message_length
message_length-ellipsis = refl

leb→le : (a b : ℕ) → leb a b ≡ true → a ≤ b
leb→le a b h = ground arith

leb-false : (a b : ℕ) → leb a b ≡ false → b < a
leb-false a b h = ground arith

message_length-around :
    (a wish b : String)
    → message_length (a & wish & b) ≡ message_length (a & "" & b) + message_length wish
message_length-around a wish b = omega (
  arith,
  message_length-append a (wish & b),
  message_length-append wish b,
  message_length-append a ("" & b),
  ap message_length (append.nil b),
)

module _ (library : Library) (event : Event) (masters : List Master) where
  abbrev pub before_wish : Bool → String
  before_wish in_main_roster =
      "✅ Участие в игре "
      & reference library event
      & " подтверждено.\n\n"
      & (if in_main_roster then "Мастера скоро отправят вам ссылку на чат игры!\n\n" else "")
      & "Пожелания по персонажу:\n"

  abbrev pub after_wish : String
  after_wish =
      "\n\nПозже их можно изменить через «🎭 Пожелания по игре».\n\n"
      & master_contacts_section library masters

  unfoldable pub compose : Bool → String → String
  unfolding event_reference master_contacts_section
  compose in_main_roster wish = before_wish in_main_roster & wish & after_wish

  unfoldable pub shortened_wish : String → ℕ → String
  unfolding kept rstrip
  shortened_wish wish budget = rstrip library.isspace (kept budget wish) & "…"

  abbrev budget : Bool → String → ℕ
  budget main wish =
      message_length wish - (message_length (compose main wish) - max_message_length) - 1

  unfoldable pub confirmation_success_text : String → Bool → String
  unfolding compose shortened_wish
  confirmation_success_text character_wish in_main_roster =
      if leb (message_length (compose in_main_roster character_wish)) max_message_length
      then compose in_main_roster character_wish
      else compose in_main_roster
          (shortened_wish character_wish (budget in_main_roster character_wish))

  message_length-compose :
      (main : Bool) (wish : String)
      → message_length (compose main wish) ≡ message_length (compose main "") + message_length wish
  unfolding compose
  message_length-compose main wish = message_length-around (before_wish main) wish after_wish

  shortened_wish-le :
      (wish : String) (budget : ℕ) → message_length (shortened_wish wish budget) ≤ budget + 1
  unfolding shortened_wish
  shortened_wish-le wish budget = omega (
    arith,
    message_length-append (rstrip library.isspace (kept budget wish)) "…",
    message_length-rstrip-le library.isspace (kept budget wish),
    message_length-kept-le budget wish,
    message_length-ellipsis,
  )

  -- The reply to a confirmation fits into a message, however long the wish is, if it has room for one
  -- character without the wish.
  pub confirmation_success_text-fits :
      (character_wish : String) (in_main_roster : Bool)
      → message_length (compose in_main_roster "") < max_message_length
      → message_length (confirmation_success_text character_wish in_main_roster)
        ≤ max_message_length
  unfolding confirmation_success_text
  confirmation_success_text-fits wish main room =
      elim (Bool-cases (leb (message_length (compose main wish)) max_message_length)) [
        | inl e ↦ rw e (leb→le _ _ e)
        | inr e ↦ rw e (
            omega (
              arith,
              message_length-compose main wish,
              message_length-compose main (shortened_wish wish (budget main wish)),
              shortened_wish-le wish (budget main wish),
              leb-false (message_length (compose main wish)) max_message_length e,
            ))
      ]

abbrev pub chosen_option : Option RegistrationQuestion → Option String → Option AnswerOption
chosen_option none answer_id = none
chosen_option (some question) answer_id = question_option question answer_id

abbrev pub answer_line : Option AnswerOption → String
answer_line none = ""
answer_line (some option) = "\n\nВаш ответ: " & option.name

abbrev pub masters_line : String → String
masters_line masters_text = if is_empty masters_text then "" else "\n\n" & masters_text

abbrev pub in_table : Event → Result String → (String → String) → Result String
in_table event position f =
    if is_some event.public_table_public_url
    then elim position [ ok text ↦ ok (f text) | err e ↦ err e ]
    else err Error.runtime_error

-- The reply to a signup.
module _ (library : Library) where
  abbrev pub position_text : ℕ → ℕ → Event → String
  position_text queue_position capacity event =
      "Вы записались на игру "
      & reference library event
      & "!\n\n"
      & (if leb queue_position capacity
          then "Сейчас вы в основном составе.\n\n"
          else "Сейчас вы в запасе. Перед вами: "
            & decimal (queue_position - capacity)
            & ".\n\nЕсли вы перейдёте в основной состав, бот сообщит об этом отдельным "
            & "сообщением.\n\n")
      & "Актуальный список записавшихся и состав можно посмотреть здесь: "

  abbrev pub deadline_text : Option Datetime → String
  deadline_text none = ""
  deadline_text (some deadline) = " до " & library.format_confirmation_deadline deadline & " (мск)"

  abbrev pub confirmation_text : Event → String
  confirmation_text event =
      if event.status == EventStatus.confirmation_open
      then "Когда будете уверены, что сможете прийти на игру, подтвердите участие"
        & deadline_text event.confirmation_deadline
        & "."
      else "Подтверждение участия пока не открыто. Мы обязательно пришлём вам уведомление, "
        & "когда можно будет подтвердиться."

  -- `same_day_signup_warning` of service_support.py
  unfoldable pub same_day_signup_warning : Date → String
  same_day_signup_warning game_date =
      "Важно: вы уже записаны на другую игру, которая проводится "
      & library.format_game_date game_date
      & ". Вы сможете подтвердить своё участие только в одной игре, когда решите, в какую именно "
      & "хотите играть."

  abbrev pub warning_for : Bool → Option Date → String
  warning_for true (some game_date) = "\n\n" & same_day_signup_warning game_date
  warning_for _ _ = ""

  abbrev pub signup_text : Event → List Master → Bool → Option String → String → String
  signup_text event masters same_day_warning answer_id position =
      position
      & "\n\n"
      & confirmation_text event
      & "\n\nПожелания по соигрокам всегда можно изменить позже через «🎭 Пожелания по игре»."
      & answer_line (chosen_option event.registration_question answer_id)
      & warning_for same_day_warning event.game_date
      & masters_line (event_masters_text library masters)

  unfoldable pub enlistment_success_text :
      Event → ℕ → List Master → Bool → Option String → Result String
  unfolding event_reference same_day_signup_warning event_masters_text
  enlistment_success_text event queue_position masters same_day_warning answer_id =
      elim (answer_capacity event answer_id) [
        | err e ↦ err e
        | ok capacity ↦
            in_table event (with_table_links (position_text queue_position capacity event) event)
              (signup_text event masters same_day_warning answer_id)
      ]
