-- ===== src/Application/RegistrationOpenings/Calls.antt =====
-- The calls of the transport in a round of notifications, and whom they reached.
use rolebot_hse.Base.{
  ◌≡◌, refl, ap, String, Bool, not, map, Option, List, [], ◌∷◌, keep_if, all_of, mem, string_eq,
}
use rolebot_hse.Errors.{ok}
use rolebot_hse.Domain.Event.{ScheduledLifecycleEvent}
use rolebot_hse.Base.Text.{◌&◌, decimal}
use rolebot_hse.Domain.Enums.{platform_value}
use rolebot_hse.Domain.User.{Identity}
use rolebot_hse.Application.Effects.{pure, continue}
use rolebot_hse.Application.Support.{Sending}
use rolebot_hse.Application.Notifications.{Letter}
use rolebot_hse.Application.RegistrationOpenings.{
  World, Services, recipient_key, recipient_if, reached_in, letter_of, send_each,
}

-- Calls, the oldest first, put in front of those that were made before them.
abbrev pub onto : List (Letter × Sending) → List (Letter × Sending) → List (Letter × Sending)
onto [] before = before
onto (call ∷ calls) before = onto calls (call ∷ before)

abbrev pub addressee : Letter × Sending → Identity
addressee call = call.0.to

-- How an operator is written in the marks of a game.
abbrev pub written_key : Identity → String
written_key i = platform_value i.0 & ":" & decimal i.1

-- Those whose message was accepted.
abbrev pub accepted : List (Letter × Sending) → List String
accepted [] = []
accepted ((letter, Sending.delivered) ∷ calls) = written_key letter.to ∷ accepted calls
accepted ((letter, _) ∷ calls) = accepted calls

-- Each outcome is what the transport answered after the calls before it.
abbrev pub IsAnsweredBy :
    (List (Letter × Sending) → Letter → Sending)
    → List (Letter × Sending)
    → List (Letter × Sending)
    → Type 0
IsAnsweredBy transport before [] = Unit {0}
IsAnsweredBy transport before ((letter, sending) ∷ calls) =
    (sending ≡ transport before letter) × IsAnsweredBy transport ((letter, sending) ∷ before) calls

-- Those of the identities who are not among the marks.
abbrev pub unmarked : List String → List Identity → List Identity
unmarked marks identities = keep_if (λ i. not (mem (written_key i) marks)) identities

abbrev pub are_marked : List Identity → List String → Bool
are_marked identities marks = all_of (λ i. mem (written_key i) marks) identities

module _ (services : Services) where
  -- What `send_each` did: the calls of the transport, oldest first, with what came of each.
  pub record Sent (event : ScheduledLifecycleEvent) (is : List Identity) (w : World) : Type 0 where
    pub results : List (Option String)
    pub calls : List (Letter × Sending)
    pub run :
        send_each services event is w ≡ (ok results, record w { attempts = onto calls w.attempts })
    pub asked : map addressee calls ≡ is
    pub answered : IsAnsweredBy services.transport w.attempts calls
    pub reached : reached_in results ≡ accepted calls

  reached_in-accepted :
      (i : Identity) (s : Sending) (letter : Letter) (rs : List (Option String))
      (calls : List (Letter × Sending))
      → letter.to ≡ i
      → reached_in rs ≡ accepted calls
      → reached_in (recipient_if i s ∷ rs) ≡ accepted ((letter, s) ∷ calls)
  unfolding recipient_key
  reached_in-accepted i Sending.delivered letter rs calls t h = rw (t, h) refl
  reached_in-accepted i Sending.unreachable letter rs calls t h = h
  reached_in-accepted i Sending.failed letter rs calls t h = h

  pub send_each-Sent :
      (event : ScheduledLifecycleEvent) (is : List Identity) (w : World) → Sent event is w
  unfolding send_each
  send_each-Sent event [] w = record {
    results = [];
    calls = [];
    run = refl;
    asked = refl;
    answered = tt;
    reached = refl;
  }
  send_each-Sent event (i ∷ is) w =
      let letter = letter_of services event i in
      let sending = services.transport w.attempts letter in
      let rest = send_each-Sent event is (record w { attempts = (letter, sending) ∷ w.attempts }) in
      record {
        results = recipient_if i sending ∷ rest.results;
        calls = (letter, sending) ∷ rest.calls;
        run = ap (continue (λ results. pure (recipient_if i sending ∷ results))) rest.run;
        asked = ap (λ x. i ∷ x) rest.asked;
        answered = (refl, rest.answered);
        reached = reached_in-accepted i sending letter rest.results rest.calls refl rest.reached;
      }
