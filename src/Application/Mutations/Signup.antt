-- ===== src/Application/Mutations/Signup.antt =====
-- The commands of `apply` that sign a player up and that project a profile.
use rolebot_hse.Base.{
  ℕ, max_of, keep_if, String, Bool, true, false, not, ◌&&◌, ◌||◌, Option, none, some, List, [], ◌∷◌,
  is_some, is_none, or_else, mem, nat_eq, string_eq, option_eq, pair_eq, ◌==◌, ◌!=◌, if◌then◌else◌,
}
use rolebot_hse.Base.Text.{◌&◌, decimal}
use rolebot_hse.Base.Order.{nat_order, text_order, pair_order}
use rolebot_hse.Base.Sort.{sort_by}
use rolebot_hse.Errors.{ok, err, Error}
use rolebot_hse.Dict.{get}
use rolebot_hse.Domain.Enums.{platform_eq, AttendanceStatus, attendance_eq, EventStatus, status_eq}
use rolebot_hse.Domain.Event.{
  Datetime, Event, RegistrationQuestion, question_option, registration_is_open,
}
use rolebot_hse.Domain.User.{User, Identity, Button, base_of, handle_of, profile_complete}
use rolebot_hse.Domain.Registration.{Registration}
use rolebot_hse.Domain.Command.{OrderedRegistrationCommand, CommandPayload, EnlistPayload}
use rolebot_hse.Domain.Queues.{active_queue, position_from}
use rolebot_hse.Store.Events.State.{list_leaders}
use rolebot_hse.Store.Registrations.State.{get_registration}
use rolebot_hse.Store.Registrations.Enlist.{Enlistment, enlist}
use rolebot_hse.Store.Registrations.Updates.{update_profile}
use rolebot_hse.Application.Effects.{Effect, ◌>>=◌, ◌>>◌, pure, raise, read}
use rolebot_hse.Application.Support.{MutationResult, done, done_if}
use rolebot_hse.Application.Mutations.{
  World, Services, UserRows, on_registrations, refuse, fail_assert,
}
use rolebot_hse.Application.Mutations.Catalog.{refresh_with_rows}
use rolebot_hse.Application.Mutations.Access.{status_rank, actor_registrations}
use rolebot_hse.Application.Mutations.Passes.{refresh_pass_table}
use rolebot_hse.Application.Mutations.Promotions.{first_of}

abbrev pub highest_rank : List Registration → ℕ
highest_rank [] = 0
highest_rank (r ∷ rs) = max_of (status_rank r.attendance_status) (highest_rank rs)

-- `_effective_registration`: of the rows with the highest status, the oldest.
unfoldable pub effective_registration : List Registration → Option Registration
effective_registration rows = first_of (
    sort_by {K = Datetime × String} (λ r. (r.created_at, r.participant_key))
      (keep_if (λ r. status_rank r.attendance_status == highest_rank rows) rows))

module _ {S : Type 0} (services : Services S) (now : Datetime) where
  -- The links of a profile as a row has them.
  abbrev pub vk_of : User → String
  vk_of (User.telegram t) = or_else t.vk_url ""
  vk_of (User.vk v) = "https://vk.com/id" & decimal v.vk_id

  abbrev pub telegram_of : Option String → Option String
  telegram_of none = none
  telegram_of (some handle) = some ("https://t.me/" & services.removeprefix_at handle)

  abbrev pub get_user : OrderedRegistrationCommand → UserRows → Option User
  get_user c users = get (c.platform, c.platform_user_id) users

  abbrev pub is_true : Option Bool → Bool
  is_true o = elim o [ none ↦ false | some b ↦ b ]

  -- The row of a player whose profile changed, and the workbooks.
  abbrev pub project :
      Event
      → OrderedRegistrationCommand
      → String
      → String
      → User
      → Option Registration
      → Effect (World S) (Unit {0})
  project event c key full_name user none = refresh_pass_table services event none
  project event c key full_name user (some _) =
      on_registrations (
        update_profile now event.event_id (record {
          operation_id = c.operation_id;
          participant_key = key;
          display_name = services.surname_and_name full_name;
          nickname = (base_of user).nickname;
          larp_experience = is_true (base_of user).larp_experience;
          crossplay = is_true (base_of user).crossplay;
          vk_profile = vk_of user;
          telegram_profile = telegram_of (handle_of user);
        }))
      >> refresh_with_rows services now event
      >>= λ (event', rows). refresh_pass_table services event' (some rows)

  abbrev pub project_complete :
      Event
      → OrderedRegistrationCommand
      → String
      → User
      → Option String
      → Effect (World S) MutationResult
  project_complete event c key user none w = (err Error.domain_error, w)
  project_complete event c key user (some full_name) w =
      let row = get_registration event.event_id key w.registrations.rows in
      if is_none row
        && not (mem (c.platform, c.platform_user_id) (list_leaders event.event_id w.events))
      then (ok (done_if "Запись игрока уже отсутствует" false), w)
      else (project event c key full_name user row
            >> pure (done_if "Профиль игрока обновлён" false))
          w

  abbrev pub project_user :
      Event → OrderedRegistrationCommand → String → Option User → Effect (World S) MutationResult
  project_user event c key none = refuse
  project_user event c key (some user) =
      if not (profile_complete user)
      then refuse
      else project_complete event c key user (base_of user).full_name

  abbrev pub project_keyed :
      Event
      → OrderedRegistrationCommand
      → String
      → Option UserRows
      → Option (Identity → String → String)
      → Effect (World S) MutationResult
  project_keyed event c key (some users) (some key_in) =
      if key != key_in (c.platform, c.platform_user_id) event.event_id
      then refuse
      else project_user event c key (get_user c users)
  project_keyed event c key _ _ = raise Error.runtime_error

  unfoldable pub update_profile_of :
      Event → OrderedRegistrationCommand → String → Effect (World S) MutationResult
  unfolding profile_complete
  update_profile_of event c key w = project_keyed event c key w.users services.participant_key w

  -- The answer of a signup to the question of the game.
  abbrev pub answer_fits : Option RegistrationQuestion → Option String → Bool
  answer_fits none answer_id = is_none answer_id
  answer_fits (some q) answer_id = is_some (question_option q answer_id)

  -- A row of another operation that is not cancelled.
  abbrev pub signed_up : String → Option Registration → Bool
  signed_up operation_id none = false
  signed_up operation_id (some row) =
      row.attendance_status != AttendanceStatus.cancelled && row.last_operation_id != operation_id

  -- What the payload says of the player, where the service has no users.
  abbrev pub of_payload : Event → OrderedRegistrationCommand → String → EnlistPayload → Enlistment
  of_payload event c key p = record {
    operation_id = c.operation_id;
    participant_key = key;
    display_name = services.surname_and_name p.display_name;
    nickname = p.nickname;
    wish_play = p.wish_play;
    larp_experience = p.larp_experience;
    crossplay = p.crossplay;
    vk_profile = p.vk_profile;
    telegram_profile = p.telegram_profile;
    answer_id = if is_some event.registration_question then p.answer_id else none;
  }

  -- A payload of an older form, without some of the fields.
  abbrev pub is_partial : EnlistPayload → Bool
  is_partial p = is_none p.larp_experience || (is_none p.crossplay || p.vk_profile == "")

  abbrev pub telegram_or : Option String → User → Option String
  telegram_or (some profile) user = some profile
  telegram_or none (User.telegram t) = none
  telegram_or none (User.vk v) = telegram_of v.telegram_handle

  abbrev pub with_profile : EnlistPayload → User → Enlistment → Enlistment
  with_profile p user a =
      if is_partial p
      then record a {
        nickname = (base_of user).nickname;
        larp_experience = (base_of user).larp_experience;
        crossplay = (base_of user).crossplay;
        vk_profile = vk_of user;
        telegram_profile = telegram_or p.telegram_profile user;
      }
      else record a { nickname = (base_of user).nickname }

  abbrev pub with_user : EnlistPayload → Enlistment → Option User → Effect (World S) Enlistment
  with_user p a none = refuse
  with_user p a (some user) =
      if not (profile_complete user) then refuse else pure (with_profile p user a)

  abbrev pub profile_for :
      OrderedRegistrationCommand
      → EnlistPayload
      → Enlistment
      → Option UserRows
      → Effect (World S) Enlistment
  profile_for c p a none = pure a
  profile_for c p a (some users) = with_user p a (get_user c users)

  abbrev pub warned : List (Event × Registration) → Bool
  warned [] = false
  warned (_ ∷ _) = true

  -- Another game of the player on the same day.
  abbrev pub same_day_warning :
      Event → OrderedRegistrationCommand → EnlistPayload → List Identity → Effect (World S) Bool
  same_day_warning event c p identities = elim event.game_date [
    | none ↦ pure false
    | some game_date ↦
        if p.same_day_warning_shown
        then pure false
        else if is_none services.participant_key
        then raise Error.runtime_error
        else (services.player_registrations_on_date c game_date
              (AttendanceStatus.waiting ∷ AttendanceStatus.confirmed ∷ []) event identities
            >>= λ found. pure (warned found))
  ]

  abbrev pub confirm_buttons : Event → Option (List Button)
  confirm_buttons event =
      if event.status == EventStatus.confirmation_open
      then some (services.confirmation_button event.event_id ∷ [])
      else none

  -- The text with the position of the row, which `next` must find.
  abbrev pub enlisted_text :
      Event
      → OrderedRegistrationCommand
      → EnlistPayload
      → List Identity
      → Option ℕ
      → Effect (World S) MutationResult
  enlisted_text event c p identities none = raise Error.runtime_error
  enlisted_text event c p identities (some position) =
      same_day_warning event c p identities >>= λ (warning : Bool). read (λ w.
        record (done (services.enlistment_success_text event position warning p.answer_id w)) {
          buttons = confirm_buttons event;
        })

  abbrev pub enlist_row :
      Event
      → OrderedRegistrationCommand
      → EnlistPayload
      → List Identity
      → Enlistment
      → Effect (World S) MutationResult
  enlist_row event c p identities a =
      on_registrations (enlist now now event.event_id a)
      >> refresh_with_rows services now event
      >>= λ (event', rows).
          refresh_pass_table services event' (some rows)
          >> enlisted_text event' c p identities (
              position_from 1 a.participant_key (
                active_queue rows
                  (if is_some event'.registration_question then p.answer_id else none)))

  abbrev pub enlist_checked :
      Event
      → OrderedRegistrationCommand
      → String
      → EnlistPayload
      → List Identity × List Registration
      → Effect (World S) MutationResult
  enlist_checked event c key p (identities, rows) w =
      (if signed_up c.operation_id (effective_registration rows)
          then refuse
          else if not (answer_fits event.registration_question p.answer_id)
          then refuse
          else (profile_for c p (of_payload event c key p) w.users
              >>= enlist_row event c p identities))
        w

  abbrev pub enlist_open :
      Event → OrderedRegistrationCommand → String → CommandPayload → Effect (World S) MutationResult
  enlist_open event c key (CommandPayload.enlist p) =
      actor_registrations services event c >>= enlist_checked event c key p
  enlist_open event c key _ = fail_assert

  unfoldable pub enlist_player :
      Event → OrderedRegistrationCommand → String → Effect (World S) MutationResult
  unfolding effective_registration profile_complete
  enlist_player event c key =
      if event.status == EventStatus.closed
      then refuse
      else if not (registration_is_open event now)
      then refuse
      else enlist_open event c key c.payload
