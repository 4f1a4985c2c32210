-- ===== src/Tests/RegistrationOpenings.antt =====
-- A round over a game whose registration has opened, with two operators, one of them unreachable.
use rolebot_hse.Store.Events.Schedules.{mark_registration_open_notification_delivered}
use rolebot_hse.Base.Order.{text_lt}
use rolebot_hse.Base.Text.{decimal}
use rolebot_hse.Base.Sort.{sort_by, insert_by}
use rolebot_hse.Base.{◌≡◌, refl, none, some, List, [], ◌∷◌, if◌then◌else◌, nat_eq}
use rolebot_hse.Base.{◌==◌}
use rolebot_hse.Errors.{ok}
use rolebot_hse.Domain.Enums.{Platform, platform_value}
use rolebot_hse.Domain.Event.{Event}
use rolebot_hse.Domain.User.{Identity}
use rolebot_hse.Store.Events.Listing.{to_lifecycle, list_due_registration_notifications}
use rolebot_hse.Application.Support.{Sending}
use rolebot_hse.Application.RegistrationOpenings.{
  World, Services, ordered_identities, notify_event, notify_due,
}
use rolebot_hse.Application.RegistrationOpenings.Rounds.{Round, notify_event-Round}
use rolebot_hse.Tests.Data.{game}
use rolebot_hse.Tests.Notifications.{library}

abbrev services : Services
services = record {
  admins = (Platform.telegram, 5) ∷ (Platform.system, 0) ∷ [];
  gamemasters = (Platform.vk, 9) ∷ (Platform.telegram, 5) ∷ [];
  transport = λ attempts letter. if letter.to.1 == 9 then Sending.failed else Sending.delivered;
  library = library;
}

abbrev opened_ball : Event
opened_ball = record (game "ball" 1 5) { registration_open_at = some 7 }

abbrev world : World
world = record { rows = ("ball", opened_ball) ∷ []; attempts = [] }

abbrev operators : List Identity
operators = (Platform.telegram, 5) ∷ (Platform.vk, 9) ∷ []

operators_in_order : ordered_identities services ≡ operators
unfolding ordered_identities sort_by platform_value decimal insert_by text_lt
operators_in_order = refl

notify_event-Round_example :
    Round services 9 operators 9 opened_ball world
      (notify_event services 9 operators 9 (to_lifecycle opened_ball) world)
notify_event-Round_example = notify_event-Round services 9 operators 9 opened_ball world refl

-- One operator is told, and the game is left for the next round.
one_told : (notify_due services 9 9 100 none world).0 ≡ ok (0, 1)
unfolding notify_due list_due_registration_notifications sort_by insert_by platform_value decimal
    text_lt mark_registration_open_notification_delivered
one_told = refl
