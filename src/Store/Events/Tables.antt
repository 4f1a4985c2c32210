-- ===== src/Store/Events/Tables.antt =====
-- The methods of `MemoryEventRepository` that attach workbooks and presentations to a game. Each
-- validates a copy of the event and puts it in place, so an inconsistent copy is refused.
use rolebot_hse.Base.{
  String, Bool, false, Option, none, some, is_some, or_else, string_eq, if◌then◌else◌,
}
use rolebot_hse.Errors.{Result, ok}
use rolebot_hse.Dict.{get}
use rolebot_hse.Domain.Event.{Datetime, Event, model_validate}
use rolebot_hse.Store.Events.State.{Rows}
use rolebot_hse.Store.Events.Closing.{replace_row}

-- `a or b` of two optional texts that are not empty
abbrev pub either_of : Option String → Option String → Option String
either_of none b = b
either_of (some a) b = some a

module _ (fields_ok : Event → Bool) where
  -- Nothing happens without the event or where the `attached` value is there already.
  unfoldable pub attach : (Event → Bool) → (Event → Event) → String → Rows → Result (Rows × Bool)
  unfolding model_validate
  attach attached f event_id rows = elim (get event_id rows) [
    | none ↦ ok (rows, false)
    | some e ↦
        if attached e
        then ok (rows, false)
        else replace_row event_id rows (model_validate fields_ok (f e))
  ]

  unfoldable pub set_public_table :
      Datetime → String → String → String → Option String → Rows → Result (Rows × Bool)
  unfolding attach
  set_public_table now event_id resource_path public_url google_url =
      attach (λ e. is_some e.public_table_public_url)
        (λ e. record e {
          public_table_resource_path = some resource_path;
          public_table_public_url = some public_url;
          public_table_google_url = google_url;
          updated_at = now;
        })
        event_id

  unfoldable pub set_pass_table :
      Datetime → String → String → String → Option String → Rows → Result (Rows × Bool)
  unfolding attach
  set_pass_table now event_id resource_path public_url google_url =
      attach (λ e. is_some e.pass_table_public_url)
        (λ e. record e {
          pass_table_resource_path = some resource_path;
          pass_table_public_url = some public_url;
          pass_table_google_url = google_url;
          updated_at = now;
        })
        event_id

  unfoldable pub set_achievement : Datetime → String → String → String → Rows → Result (Rows × Bool)
  unfolding attach
  set_achievement now event_id resource_path public_url =
      attach (λ e. is_some e.achievement_public_url)
        (λ e. record e {
          achievement_resource_path = some resource_path;
          achievement_public_url = some public_url;
          updated_at = now;
        })
        event_id

  unfoldable pub set_google_table_links :
      Datetime
      → String
      → Option String
      → Option String
      → Option String
      → Rows
      → Result (Rows × Bool)
  unfolding attach
  set_google_table_links now event_id master_url public_url pass_url =
      attach (λ e. false)
        (λ e. record e {
          master_table_google_url = either_of master_url e.master_table_google_url;
          public_table_google_url = either_of public_url e.public_table_google_url;
          pass_table_google_url = either_of pass_url e.pass_table_google_url;
          updated_at = now;
        })
        event_id

  unfoldable pub set_yandex_table_links :
      Datetime
      → String
      → Option String
      → Option String
      → Option String
      → Rows
      → Result (Rows × Bool)
  unfolding attach
  set_yandex_table_links now event_id master_url public_url pass_url =
      attach (λ e. false)
        (λ e. record e {
          public_registration_url = or_else master_url e.public_registration_url;
          public_table_public_url = either_of public_url e.public_table_public_url;
          pass_table_public_url = either_of pass_url e.pass_table_public_url;
          updated_at = now;
        })
        event_id
