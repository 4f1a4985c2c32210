-- ===== src/Application/RegistrationOpenings.antt =====
-- `RegistrationOpeningNotificationService` of larp_bot/application/registration_openings.py: the
-- operators are told of the games whose registration has opened. The proofs are in the child.
pub mod Marks
pub mod Calls
pub mod Rounds
use rolebot_hse.Base.{
  ℕ, suc, ◌+◌, String, Bool, true, false, not, ◌&&◌, Option, none, some, List, [], ◌∷◌, ◌++◌, map,
  length, take, keep_if, all_of, mem, is_none, string_eq, nat_eq, pair_eq, ◌==◌, ◌!=◌,
  if◌then◌else◌,
}
use rolebot_hse.Base.Order.{text_order}
use rolebot_hse.Base.Sort.{sort_by}
use rolebot_hse.Base.Text.{◌&◌, decimal}
use rolebot_hse.Errors.{Result, ok, err}
use rolebot_hse.Dict.{Dict, put, values}
use rolebot_hse.Domain.Enums.{Platform, platform_eq, platform_value, EventStatus, status_eq}
use rolebot_hse.Domain.Event.{Datetime, Date, Event, ScheduledLifecycleEvent}
use rolebot_hse.Domain.User.{Identity, Button}
use rolebot_hse.Store.Events.Listing.{is_due, to_lifecycle, list_due_registration_notifications}
use rolebot_hse.Store.Events.Schedules.{
  mark_registration_open_notification_delivered, complete_registration_open_notification,
}
use rolebot_hse.Application.Effects.{Effect, ◌>>=◌, ◌>>◌, pure, when}
use rolebot_hse.Application.Support.{Sending}
use rolebot_hse.Application.Mutations.{EventRows}
use rolebot_hse.Application.Notifications.{Letter, Library}
use rolebot_hse.Application.Notifications.Texts.{event_reference, main_menu}

-- The rows of the event repository, and the calls of the transport, the latest first.
pub record World : Type 0 where
  pub rows : EventRows
  pub attempts : List (Letter × Sending)

-- What the service calls: the configuration of the operators, the transport, and the formats of
-- Python's library.
pub record Services : Type 0 where
  pub admins : List Identity
  pub gamemasters : List Identity
  pub transport : List (Letter × Sending) → Letter → Sending
  pub library : Library

-- `_recipient_key`
unfoldable pub recipient_key : Identity → String
recipient_key (platform, user_id) = platform_value platform & ":" & decimal user_id

-- The dict comprehension over the identities.
unfoldable pub by_key : List Identity → Dict String Identity → Dict String Identity
unfolding recipient_key
by_key [] dict = dict
by_key (i ∷ is) dict =
    by_key is (if i.0 == Platform.system then dict else put (recipient_key i) i dict)

abbrev pub entry_key : String × Identity → String
entry_key (key, identity) = key

abbrev pub changed : World → Result EventRows → Result (Unit {0}) × World
changed w (ok rows) = (ok tt, record w { rows = rows })
changed w (err e) = (err e, w)

abbrev pub change : (EventRows → Result EventRows) → Effect World (Unit {0})
change f w = changed w (f w.rows)

-- Whose exceptions are all caught, so that only an accepted message counts.
abbrev pub recipient_if : Identity → Sending → Option String
recipient_if identity Sending.delivered = some (recipient_key identity)
recipient_if identity Sending.unreachable = none
recipient_if identity Sending.failed = none

-- The recipients among the results of `gather`.
abbrev pub reached_in : List (Option String) → List String
reached_in [] = []
reached_in (none ∷ rs) = reached_in rs
reached_in (some r ∷ rs) = r ∷ reached_in rs

abbrev pub is_pending : List String → Identity → Bool
is_pending notified identity = not (mem (recipient_key identity) notified)

module _ (services : Services) where
  -- The operators in the order of their keys, each once.
  unfoldable pub ordered_identities : List Identity
  unfolding by_key
  ordered_identities =
      values (sort_by entry_key (by_key (services.admins ++ services.gamemasters) []))

  abbrev pub letter_of : ScheduledLifecycleEvent → Identity → Letter
  letter_of event identity = record {
    to = identity;
    request_id = "registration-open:" & event.event_id & ":" & recipient_key identity;
    text =
        "Регистрация на игру "
        & event_reference services.library event.name event.game_date
        & " открыта.";
    buttons = main_menu;
  }

  -- `_send`
  unfoldable pub send : ScheduledLifecycleEvent → Identity → Effect World (Option String)
  unfolding recipient_key
  send event identity w =
      let sending = services.transport w.attempts (letter_of event identity) in
      (
        ok (recipient_if identity sending),
        record w { attempts = (letter_of event identity, sending) ∷ w.attempts },
      )

  -- `gather`: the calls are taken one after another.
  unfoldable pub send_each :
      ScheduledLifecycleEvent → List Identity → Effect World (List (Option String))
  unfolding send
  send_each event [] = pure []
  send_each event (i ∷ is) =
      send event i >>= λ result. send_each event is >>= λ results. pure (result ∷ results)

  module _ (now : Datetime) where
    unfoldable pub mark_each : String → List String → Effect World (Unit {0})
    mark_each event_id [] = pure tt
    mark_each event_id (recipient ∷ recipients) =
        change (mark_registration_open_notification_delivered now event_id recipient)
        >> mark_each event_id recipients

    -- Whether everybody was told, and the mark of that.
    abbrev pub conclude :
        ScheduledLifecycleEvent → List Identity → Datetime → List String → Effect World (ℕ × ℕ)
    conclude event identities opened_by reached =
        if all_of
          (λ i. mem (recipient_key i) (reached ++ event.registration_open_notified_recipients))
          identities
        then change (complete_registration_open_notification event.event_id opened_by)
          >> pure (1, length reached)
        else pure (0, length reached)

    -- The body of the loop over the events: how many were completed, and how many operators were
    -- told.
    unfoldable pub notify_event :
        List Identity → Datetime → ScheduledLifecycleEvent → Effect World (ℕ × ℕ)
    unfolding send_each mark_each
    notify_event identities opened_by event =
        send_each event
          (keep_if (is_pending event.registration_open_notified_recipients) identities)
        >>= λ results.
            mark_each event.event_id (reached_in results)
            >> conclude event identities opened_by (reached_in results)

    unfoldable pub notify_events :
        List Identity → Datetime → List ScheduledLifecycleEvent → Effect World (ℕ × ℕ)
    unfolding notify_event
    notify_events identities opened_by [] = pure (0, 0)
    notify_events identities opened_by (event ∷ events) =
        notify_event identities opened_by event >>= λ (completed, delivered).
        notify_events identities opened_by events >>= λ (completed', delivered').
        pure (completed + completed', delivered + delivered')

    -- The condition on the events that the caller hands over.
    abbrev pub is_opened : Datetime → ScheduledLifecycleEvent → Bool
    is_opened opened_by e =
        is_due e.registration_open_at opened_by
        && (is_none e.registration_open_notification_completed_at
            && (is_none e.archived_at && e.status != EventStatus.closed))

    abbrev pub due_notifications :
        Datetime
        → ℕ
        → Option (List ScheduledLifecycleEvent)
        → EventRows
        → List ScheduledLifecycleEvent
    due_notifications opened_by limit none rows =
        map to_lifecycle (list_due_registration_notifications opened_by limit rows)
    due_notifications opened_by limit (some events) rows =
        take limit (keep_if (is_opened opened_by) events)

    unfoldable pub notify_due :
        Datetime → ℕ → Option (List ScheduledLifecycleEvent) → Effect World (ℕ × ℕ)
    unfolding ordered_identities notify_events
    notify_due opened_by limit due_events w =
        notify_events ordered_identities opened_by
          (due_notifications opened_by limit due_events w.rows) w
