-- ===== src/Application/Notifications/Texts.antt =====
-- The texts of the notifications.
use rolebot_hse.Base.{
  String, Bool, Option, none, some, List, [], ◌∷◌, ◌++◌, take, map, string_eq, if◌then◌else◌,
}
use rolebot_hse.Base.Text.{◌&◌}
use rolebot_hse.Base.Words.{join, split, strip}
use rolebot_hse.Errors.{Result, ok, err}
use rolebot_hse.Domain.Event.{
  Date, Datetime, Event, RegistrationQuestion, AnswerOption, question_option,
}
use rolebot_hse.Domain.Registration.{Registration}
use rolebot_hse.Domain.User.{Button}
use rolebot_hse.Application.TableLinks.{for_player, public_table_links}
use rolebot_hse.Application.Notifications.{Library}
use rolebot_hse.Application.Notifications.ChatLinks.{is_plain_chat_link, chat_links}

abbrev pub main_menu_button : Button
main_menu_button = record { label = "В главное меню"; value = "Главное меню" }

abbrev pub main_menu : List Button
main_menu = main_menu_button ∷ []

abbrev pub confirmation_button : String → Button
confirmation_button event_id = record {
  label = "✅ Подтвердить участие";
  value = "select:confirm:" & event_id;
}

abbrev pub nickname_line : Option String → List String
nickname_line none = []
nickname_line (some nickname) = ("Никнейм: " & nickname) ∷ []

-- `answer_text` of larp_bot/domain/registration_queues.py
abbrev pub name_or_missing : Option AnswerOption → String
name_or_missing none = "не выбран"
name_or_missing (some option) = option.name

abbrev pub answer_to : Option RegistrationQuestion → Option String → String
answer_to none answer_id = ""
answer_to (some question) answer_id =
    "Дополнительный вопрос: "
    & question.text
    & "\n"
    & "Ваш ответ: "
    & name_or_missing (question_option question answer_id)

unfoldable pub answer_text : Event → Registration → String
answer_text event registration = answer_to event.registration_question registration.answer_id

-- A text in front of the links of the public table, which it ends with.
abbrev pub with_table_links : String → Event → Result String
with_table_links text event = elim (for_player (public_table_links event)) [
  | ok links ↦ ok (text & links)
  | err e ↦ err e
]

module _ (library : Library) where
  abbrev pub date_suffix : Option Date → String
  date_suffix none = ""
  date_suffix (some game_date) = " (" & library.format_game_date game_date & ")"

  unfoldable pub event_reference : String → Option Date → String
  event_reference name game_date = "«" & name & "»" & date_suffix game_date

  abbrev pub reference : Event → String
  reference event = event_reference event.name event.game_date

  unfoldable pub surname_and_name : String → String
  surname_and_name value = join " " (take 2 (split library.isspace value))

  unfoldable pub player_notification_text : String → String → Option Date → String
  unfolding event_reference
  player_notification_text event_name message game_date =
      "Сообщение от мастеров игры "
      & event_reference event_name game_date
      & ":\n\n"
      & strip library.isspace message

  unfoldable pub confirmed_notification_text : String → String → Option Date → String
  unfolding event_reference player_notification_text is_plain_chat_link
  confirmed_notification_text event_name message game_date =
      let clean_message = strip library.isspace message in
      if is_plain_chat_link library clean_message
      then "Вы в основном составе игры "
        & event_reference event_name game_date
        & ". Вступите в чат: "
        & clean_message
      else player_notification_text event_name clean_message game_date

  unfoldable pub cancellation_master_text : Event → String → Option String → Bool → Bool → String
  unfolding event_reference
  cancellation_master_text event player_name nickname confirmed same_day_replacement = join "\n" (
      (("Отмена участия в игре " & reference event) ∷ "" ∷ ("Игрок: " & player_name) ∷ [])
      ++ nickname_line nickname
      ++ (("Статус участия: " & (if confirmed then "подтверждено" else "не подтверждено")) ∷ [])
      ++ (if same_day_replacement
          then "" ∷ "Причина: игрок подтвердил участие в другой игре в тот же день." ∷ []
          else []))

  unfoldable pub reserve_promotion_text : Event → Result String
  unfolding event_reference
  reserve_promotion_text event =
      with_table_links
        ("Место освободилось: вы перешли из запаса в основной состав игры "
          & reference event
          & ".\n\nПосле подтверждения участия мастера отправят вам ссылку на чат игры отдельным "
          & "сообщением.\n\nПосмотрите актуальный состав игроков: ")
        event

  unfoldable pub capacity_promotion_text : Event → Result String
  unfolding event_reference
  capacity_promotion_text event =
      with_table_links
        ("Количество мест увеличилось: вы перешли из запаса в основной состав игры "
          & reference event
          & ".\n\nПосмотрите актуальный состав игроков: ")
        event

  unfoldable pub sift_promotion_text : Event → Result String
  unfolding event_reference
  sift_promotion_text event =
      with_table_links
        ("Вы перешли из запаса в основной состав игры "
          & reference event
          & ".\n\nПосмотрите актуальный состав игроков: ")
        event

  unfoldable pub demotion_text : Bool → Event → String
  unfolding event_reference
  demotion_text by_masters event =
      if by_masters
      then "Мастера переместили вашу неподтверждённую заявку в запас игры " & reference event & "."
      else "Вы не успели подтвердить или отменить ваше участие в игре «" & event.name
        & "». Мы были вынуждены переместить вашу заявку в запас"

  unfoldable pub removal_text : Event → String
  unfolding event_reference
  removal_text event = "Ваша запись на игру " & reference event & " удалена."

  unfoldable pub confirmation_opened_text : Bool → Event → Datetime → String
  unfolding event_reference
  confirmation_opened_text opened event confirmation_deadline =
      let deadline = library.format_confirmation_deadline confirmation_deadline in
      if opened
      then "Подтверждение участия в игре "
        & reference event
        & " открыто! Подтвердите участие до "
        & deadline
        & " (мск)."
      else "Напоминаем: подтвердите участие в игре "
        & reference event
        & " до "
        & deadline
        & " (мск)."

  abbrev pub link_texts : Event → List String
  link_texts event =
      map (λ link. confirmed_notification_text event.name link event.game_date)
        (chat_links library event)
