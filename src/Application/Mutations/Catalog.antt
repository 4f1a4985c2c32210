-- ===== src/Application/Mutations/Catalog.antt =====
-- `RegistrationCatalog` of larp_bot/application/registration_services.py: the registrations and the
-- showcase that is derived from them.
use rolebot_hse.Base.{
  String, Bool, true, false, Option, none, some, List, [], ◌∷◌, is_some, or_else, any_of,
  if◌then◌else◌, string_eq, option_eq, ◌==◌,
}
use rolebot_hse.Base.Text.{◌&◌}
use rolebot_hse.Base.Prefix.{strip_prefix}
use rolebot_hse.Errors.{Result, ok, err}
use rolebot_hse.Dict.{Dict, get}
use rolebot_hse.Domain.Event.{Datetime, Event, model_validate}
use rolebot_hse.Domain.Registration.{Registration}
use rolebot_hse.Store.Events.Tables.{set_public_table, set_google_table_links}
use rolebot_hse.Store.Events.Closing.{archive}
use rolebot_hse.Store.Events.State.{delete}
use rolebot_hse.Store.Events.Delivery.{mark_registrations_migrated}
use rolebot_hse.Store.Registrations.State.{list_for_event, import_missing, delete_for_event}
use rolebot_hse.Application.Effects.{Effect, ◌>>=◌, ◌>>◌, pure, raise, when}
use rolebot_hse.Application.Mutations.{
  World, Services, get_event, try_events, change_events, on_registrations, refuse,
}

module _ {S : Type 0} (services : Services S) (now : Datetime) where
  abbrev pub rows_of : String → Effect (World S) (List Registration)
  rows_of event_id w = (ok (list_for_event event_id w.registrations.rows), w)

  -- The outcome of `set_public_table`: where it raised, the workbook is deleted and the exception
  -- raised again; where another worker attached one, that one counts.
  abbrev pub attached_table :
      Event → String → String → Option String → Result Bool × World S → Result Event × World S
  attached_table event path url google (err e, w) =
      (services.delete_event_workbook path >> raise e) w
  attached_table event path url google (ok true, w) = (
    model_validate services.fields_ok (record event {
      public_table_resource_path = some path;
      public_table_public_url = some url;
      public_table_google_url = google;
    }),
    w,
  )
  attached_table event path url google (ok false, w) =
      (get_event event.event_id >>= λ current. other_table path current) w
    where
      other_table : String → Option Event → Effect (World S) Event
      other_table path none = services.delete_event_workbook path >> refuse
      other_table path (some current) =
          if is_some current.public_table_resource_path
          then when (if current.public_table_resource_path == some path then false else true)
              (services.delete_event_workbook path)
            >> pure current
          else services.delete_event_workbook path >> refuse

  abbrev pub attach_table : Event → String → Option String → Effect (World S) Event
  attach_table event path none w = (ok event, w)
  attach_table event path (some url) w =
      let google = if services.mirrors_google_tables then some url else none in
      attached_table event path url google
        (try_events (set_public_table services.fields_ok now event.event_id path url google) w)

  -- `ensure_public_table`, with the rows at hand and no requester
  unfoldable pub ensure_public_table : Event → List Registration → Effect (World S) Event
  ensure_public_table event rows =
      let path = services.event_table_path event.event_id event.name in
      if is_some event.public_table_resource_path
      then pure event
      else services.create_public_event_workbook path event rows >>= attach_table event path

  abbrev pub is_google : String × String → Bool
  is_google (key, url) = is_some (strip_prefix "google:" key)

  abbrev pub stored_or : Event → Option Event → Event
  stored_or event current = or_else current event

  -- The links that the showcase returned.
  abbrev pub with_links : Event → Option (Dict String String) → Effect (World S) Event
  with_links event none = pure event
  with_links event (some urls) =
      if any_of is_google urls
      then try_events (
          set_google_table_links services.fields_ok now event.event_id (get "google:master" urls)
            (get "google:public" urls) none)
        >>= (λ (_ : Bool). get_event event.event_id >>= λ current. pure (stored_or event current))
      else pure event

  unfoldable pub refresh_with_rows : Event → Effect (World S) (Event × List Registration)
  unfolding ensure_public_table
  refresh_with_rows event = rows_of event.event_id >>= λ rows.
      ensure_public_table event rows >>= λ (event' : Event).
      services.replace event' rows >>= with_links event' >>= λ (event'' : Event).
      pure (event'', rows)

  unfoldable pub refresh : Event → Effect (World S) Event
  unfolding refresh_with_rows
  refresh event = refresh_with_rows event >>= λ (event', _). pure event'

  unfoldable pub ensure_migrated : Event → Effect (World S) Event
  unfolding refresh
  ensure_migrated event =
      if is_some event.registrations_migrated_at
      then pure event
      else when services.legacy_registration_imports (
          services.read_legacy_registrations event >>= λ legacy.
          on_registrations (λ rows. (import_missing legacy rows, tt)))
        >> (refresh event >>= λ (event' : Event).
            change_events (mark_registrations_migrated event'.event_id now)
            >> pure (record event' { registrations_migrated_at = some now }))

  unfoldable pub archive_event : Event → Effect (World S) Bool
  archive_event event = try_events (archive services.fields_ok event.event_id now)

  -- `path or default`, of a path that is not empty
  abbrev pub workbooks_of : Event → List String
  workbooks_of event = elim event.public_table_resource_path [
    | none ↦ event.disk_resource_path ∷ []
    | some path ↦
        if path == event.disk_resource_path then path ∷ [] else event.disk_resource_path ∷ path ∷ []
  ]

  abbrev pub delete_each : List String → Effect (World S) (Unit {0})
  delete_each [] = pure tt
  delete_each (path ∷ paths) = services.delete_event_workbook path >> delete_each paths

  -- `delete`: the calls that `gather` makes are taken one after another.
  unfoldable pub delete_event : Event → Effect (World S) (Unit {0})
  delete_event event =
      delete_each (workbooks_of event)
      >> services.delete_pass_table (
          or_else event.pass_table_resource_path
            ("disk:/larp-bot/passes/" & event.event_id & ".xlsx"))
      >> services.delete_achievement_presentation (
          or_else event.achievement_resource_path
            ("disk:/larp-bot/achievements/" & event.event_id & ".pptx"))
      >> on_registrations (λ rows. (delete_for_event event.event_id rows, tt))
      >> λ w. (ok tt, record w { events = (delete event.event_id w.events).0 })
