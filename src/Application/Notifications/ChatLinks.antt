-- ===== src/Application/Notifications/ChatLinks.antt =====
-- larp_bot/application/notification_helpers.py: which messages are links of a chat, and who gets
-- them.
use rolebot_hse.Base.{
  String, Bool, false, not, ◌&&◌, ◌||◌, Option, none, some, List, [], ◌∷◌, is_some, or_else, mem,
  keep_if, string_eq, ◌==◌, if◌then◌else◌,
}
use rolebot_hse.Base.Words.{is_empty, any_space, strip}
use rolebot_hse.Domain.Enums.{AttendanceStatus, attendance_eq}
use rolebot_hse.Domain.Event.{Event}
use rolebot_hse.Domain.Registration.{Registration}
use rolebot_hse.Domain.Queues.{main_roster, keys_of}
use rolebot_hse.Application.Notifications.{Library, SplitUrl}

abbrev pub telegram_chat_hosts : List String
telegram_chat_hosts =
    "t.me" ∷ "www.t.me" ∷ "telegram.me" ∷ "www.telegram.me" ∷ "telegram.dog" ∷ "www.telegram.dog"
    ∷ []

abbrev pub vk_chat_hosts : List String
vk_chat_hosts = "vk.me" ∷ "www.vk.me" ∷ []

abbrev pub web_schemes : List String
web_schemes = "http" ∷ "https" ∷ []

module _ (library : Library) where
  abbrev pub has_credentials_or_port : SplitUrl → Bool
  has_credentials_or_port url = is_some url.username || (is_some url.password || is_some url.port)

  abbrev pub is_chat_url : SplitUrl → Bool
  is_chat_url url =
      let host = library.casefold (or_else url.hostname "") in
      if not (mem (library.casefold url.scheme) web_schemes) || has_credentials_or_port url
      then false
      else if not (is_empty url.query) || not (is_empty url.fragment)
      then false
      else if mem host telegram_chat_hosts
      then library.telegram_chat_path url.path
      else mem host vk_chat_hosts && library.vk_chat_path url.path

  abbrev pub is_split_chat_url : Option SplitUrl → Bool
  is_split_chat_url none = false
  is_split_chat_url (some url) = is_chat_url url

  unfoldable pub is_plain_chat_link : String → Bool
  is_plain_chat_link value =
      let candidate = strip library.isspace value in
      if is_empty candidate || any_space library.isspace candidate
      then false
      else is_split_chat_url (library.urlsplit candidate)

  -- `[text for text in event.confirmed_notifications if is_plain_chat_link(text)]`
  abbrev pub chat_links : Event → List String
  chat_links event = keep_if is_plain_chat_link event.confirmed_notifications

-- `_chat_link_recipient_keys`, of an event
unfoldable pub chat_link_recipient_keys : List Registration → Event → List String
chat_link_recipient_keys registrations event = keys_of (
    keep_if (λ r. r.attendance_status == AttendanceStatus.confirmed)
      (main_roster event registrations))
