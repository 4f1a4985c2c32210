-- ===== src/Application/Worker/Dispatch.antt =====
-- The dispatch of `OrderedWorker._drain` by the operation of a command.
use rolebot_hse.Base.{
  String, Bool, false, not, ◌&&◌, ◌||◌, Option, none, some, ◌==◌, ◌!=◌, string_eq, nat_eq,
  option_eq, pair_eq, is_none, if◌then◌else◌,
}
use rolebot_hse.Base.Int.{ℤ, int_eq, pos}
use rolebot_hse.Errors.{Error}
use rolebot_hse.Domain.Enums.{Platform, platform_eq, Operation, operation_eq}
use rolebot_hse.Domain.Event.{Event}
use rolebot_hse.Domain.Command.{OrderedRegistrationCommand, CommandPayload}
use rolebot_hse.Application.Effects.{Effect, ◌>>=◌, ◌>>◌, pure, raise, configured}
use rolebot_hse.Application.Support.{MutationResult}
use rolebot_hse.Application.Worker.{World, Statistics, Administration, Services, Frame}
use rolebot_hse.Application.Worker.Reply.{recipient_of, call, set_enabled, set_buttons}

-- `a or b` of an optional number, where 0 counts as absent.
abbrev pub number_or : Option ℤ → ℤ → ℤ
number_or none b = b
number_or (some a) b = if a == pos 0 then b else a

-- `google_event_tables_ready` of larp_bot/application/table_links.py
unfoldable pub google_event_tables_ready : Event → Bool
google_event_tables_ready event =
    has_text event.master_table_google_url
    && (has_text event.public_table_google_url && has_text event.pass_table_google_url)
  where
    has_text : Option String → Bool
    has_text none = false
    has_text (some url) = url != ""

module _ {S : Type 0} (services : Services S) where
  -- The end of the branch for `REFRESH_EVENT_TABLES`.
  abbrev pub tables_reply : Bool → Event → Effect (Frame S) String
  tables_reply backfill event =
      if backfill
      then set_enabled services false >> pure ""
      else if is_none event.public_table_public_url || is_none event.pass_table_public_url
      then set_enabled services false >> pure ""
      else pure (services.tables_text event)

  abbrev pub refresh_tables :
      Administration S → OrderedRegistrationCommand → Event → Effect (Frame S) String
  refresh_tables administration c event =
      let backfill = c.platform == Platform.system in
      let own_id = pos c.platform_user_id in
      let reply_user_id =
        number_or c.reply_context.chat_id (number_or c.reply_context.peer_id own_id) in
      (if administration.mirrors_google_tables && not (google_event_tables_ready event)
        then call services (
            administration.refresh_event_tables event.event_id
              (if backfill then none else some (recipient_of c, reply_user_id)))
        else if is_none event.public_table_public_url || is_none event.pass_table_public_url
        then call services (administration.refresh_event_tables event.event_id none)
        else pure event)
      >>= tables_reply backfill

  abbrev pub create_daily_pass_table :
      Administration S → CommandPayload → Effect (Frame S) (Unit {0})
  create_daily_pass_table administration (CommandPayload.daily_pass_refresh game_date) =
      call services (administration.create_daily_pass_table game_date)
  create_daily_pass_table administration _ = raise Error.runtime_error

  abbrev pub with_result : MutationResult → Effect (Frame S) (String × Option String)
  with_result result =
      set_enabled services result.notifications_enabled
      >> set_buttons services result.buttons
      >> pure (result.text, result.replaced_event_id)

  -- A text with no replaced game beside it.
  abbrev pub alone : Effect (Frame S) String → Effect (Frame S) (String × Option String)
  alone m = m >>= λ text. pure (text, none)

  -- The branch for the three commands of an automatic closing.
  abbrev pub close : OrderedRegistrationCommand → Effect (Frame S) (String × Option String)
  close c = alone (
      configured services.scheduled_game_closing
        (λ (f : OrderedRegistrationCommand → Effect (World S) String).
          call services (f c) >>= λ text. set_enabled services false >> pure text))

  -- The dispatch by operation: the default text, and the game that a confirmation replaced.
  unfoldable pub dispatch :
      OrderedRegistrationCommand → Operation → Effect (Frame S) (String × Option String)
  unfolding google_event_tables_ready
  dispatch c Operation.sync_profile =
      alone
        (configured services.statistics (λ (s : Statistics S). call services (s.sync_profile c)))
  dispatch c Operation.refresh_daily_pass_table = alone (
      configured services.administration (λ (a : Administration S).
        create_daily_pass_table a c.payload >> set_enabled services false >> pure ""))
  dispatch c Operation.refresh_event_tables = alone (
      configured services.administration (λ (a : Administration S).
        call services (
          if c.platform == Platform.system
          then services.mutations.require_event c
          else services.mutations.require_active_event_leader c)
        >>= refresh_tables a c))
  dispatch c Operation.statistics =
      alone (configured services.statistics (λ (s : Statistics S). call services (s.apply c)))
  dispatch c Operation.scheduled_close_event = close c
  dispatch c Operation.scheduled_close_statistics = close c
  dispatch c Operation.scheduled_close_finalize = close c
  dispatch c _ = call services (services.mutations.apply c) >>= with_result
