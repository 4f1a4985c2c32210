-- ===== src/Application/Notifications/Masters.antt =====
-- The masters of a game and their contacts in the texts to the players.
use rolebot_hse.Base.{
  ℕ, String, Option, none, some, List, [], ◌∷◌, map, string_eq, nat_eq, pair_eq, ◌==◌, or_else,
  if◌then◌else◌,
}
use rolebot_hse.Base.Order.{nat_order, text_order, pair_order}
use rolebot_hse.Base.Sort.{sort_by}
use rolebot_hse.Base.Text.{◌&◌, decimal}
use rolebot_hse.Base.Prefix.{strip_prefix}
use rolebot_hse.Base.Words.{join, is_empty}
use rolebot_hse.Dict.{get}
use rolebot_hse.Domain.Enums.{Platform, platform_eq, platform_value}
use rolebot_hse.Domain.User.{Identity, User, base_of}
use rolebot_hse.Store.Events.State.{MemoryEventRepository, list_leaders}
use rolebot_hse.Application.Mutations.{UserRows}
use rolebot_hse.Application.Notifications.{Library}
use rolebot_hse.Application.Notifications.Texts.{surname_and_name}

abbrev pub Master : Type 0
Master = Identity × Option User

abbrev pub profile_in : Option UserRows → Identity → Master
profile_in none identity = (identity, none)
profile_in (some rows) identity = (identity, get identity rows)

abbrev pub full_name_of : Option User → Option String
full_name_of none = none
full_name_of (some user) = (base_of user).full_name

-- `f"https://vk.com/id{...}"`, `f"https://t.me/{...}"`, or nothing
abbrev pub telegram_url : Option User → Option String
telegram_url none = none
telegram_url (some (User.vk _)) = none
telegram_url (some (User.telegram t)) = elim t.telegram_handle [
  | none ↦ none
  | some handle ↦ some ("https://t.me/" & or_else (strip_prefix "@" handle) handle)
]

unfoldable pub master_profile_url : Master → Option String
master_profile_url ((platform, user_id), profile) =
    if platform == Platform.vk
    then some ("https://vk.com/id" & decimal user_id)
    else telegram_url profile

-- The values that are there.
abbrev pub present {ℓ} : {A : Type ℓ} → List (Option A) → List A
present [] = []
present (none ∷ os) = present os
present (some a ∷ os) = a ∷ present os

abbrev pub contacts : List String → String
contacts [] = "."
contacts (url ∷ urls) = ": " & join " " (url ∷ urls) & " ."

abbrev pub master_no_show_warning : String
master_no_show_warning =
    "Если вы не придете на игру, ничего нам не сообщив, к вам могут быть применены санкции "
    & "Ролевого Клуба"

module _ (library : Library) where
  abbrev pub master_key : Master → String × (String × ℕ)
  master_key ((platform, user_id), profile) =
      (library.casefold (or_else (full_name_of profile) ""), (platform_value platform, user_id))

  unfoldable pub event_master_records :
      Option UserRows → String → MemoryEventRepository → List Master
  event_master_records users event_id events =
      sort_by master_key (map (profile_in users) (list_leaders event_id events))

  abbrev pub name_of : Option String → Option String
  name_of none = none
  name_of (some full_name) =
      if is_empty full_name then none else some (surname_and_name library full_name)

  unfoldable pub master_lines : List Master → List String
  unfolding master_profile_url
  master_lines [] = []
  master_lines (master ∷ masters) =
      let rest = master_lines masters in
      elim (present (name_of (full_name_of master.1) ∷ master_profile_url master ∷ [])) [
        | [] ↦ rest
        | part ∷ parts ↦ join " — " (part ∷ parts) ∷ rest
      ]

  unfoldable pub event_masters_text : List Master → String
  unfolding master_lines
  event_masters_text masters = elim (master_lines masters) [
    | [] ↦ ""
    | line ∷ lines ↦ "Мастера игры:\n" & join "\n" (line ∷ lines)
  ]

  unfoldable pub master_contacts_section : List Master → String
  unfolding master_profile_url event_masters_text
  master_contacts_section masters =
      let disclaimer =
        "Если вы решите не участвовать в игре, пожалуйста сообщите об этом мастерам"
        & contacts (present (map master_profile_url masters))
        & " "
        & master_no_show_warning in
      let masters_text = event_masters_text masters in
      if is_empty masters_text then disclaimer else masters_text & "\n\n" & disclaimer
