-- ===== src/Application/Support.antt =====
-- larp_bot/application/service_support.py: results, the entries of the retry snapshots, and the
-- conflict of two games of one day.
use rolebot_hse.Base.{
  ◌≡◌, refl, arith, Bool-cases, inl, inr, min_of, ℕ, String, Bool, true, false, Option, none, some,
  List, ltb, max_of, if◌then◌else◌, ◌==◌, nat_eq,
}
use rolebot_hse.Base.Text.{◌&◌}
use rolebot_hse.Base.Prefix.{strip_prefix, strip_prefix-append, are_apart, strip_prefix-are_apart}
use rolebot_hse.Domain.Event.{Event}
use rolebot_hse.Domain.User.{Button}
use rolebot_hse.Domain.Enums.{AttendanceStatus, attendance_eq}
use rolebot_hse.Domain.Registration.{Registration}

-- What happens to a message: it arrives, its recipient can never be reached, or the call fails.
pub data Sending : Type 0 where
  delivered unreachable failed : Sending

pub record MutationResult : Type 0 where
  pub text : String
  pub notifications_enabled : Bool
  pub buttons : Option (List Button)
  pub replaced_event_id : Option String

-- A result with the defaults of the class.
abbrev pub done : String → MutationResult
done text = record {
  text = text;
  notifications_enabled = true;
  buttons = none;
  replaced_event_id = none;
}

-- `MutationResult(text, notifications_enabled=enabled)`
abbrev pub done_if : String → Bool → MutationResult
done_if text enabled = record (done text) { notifications_enabled = enabled }

abbrev pub sift_promoted_prefix : String
sift_promoted_prefix = "promoted:"

abbrev pub sift_demoted_prefix : String
sift_demoted_prefix = "demoted:"

abbrev pub cancelled_confirmed_prefix : String
cancelled_confirmed_prefix = "cancelled-confirmed:"

abbrev pub cancelled_waiting_prefix : String
cancelled_waiting_prefix = "cancelled-waiting:"

unfoldable pub sift_snapshot_entry : String → String → String
sift_snapshot_entry prefix participant_key = prefix & participant_key

-- the loop of `_parse_sift_snapshot_entry`
unfoldable pub parse_sift_snapshot_entry : String → Option (String × String)
parse_sift_snapshot_entry value = elim (strip_prefix sift_promoted_prefix value) [
  | some key ↦ some (sift_promoted_prefix, key)
  | none ↦ elim (strip_prefix sift_demoted_prefix value) [
    | some key ↦ some (sift_demoted_prefix, key)
    | none ↦ none
  ]
]

unfoldable pub cancellation_snapshot_entry : Registration → String
cancellation_snapshot_entry registration =
    (if registration.attendance_status == AttendanceStatus.confirmed
      then cancelled_confirmed_prefix
      else cancelled_waiting_prefix)
    & registration.participant_key

unfoldable pub parse_cancellation_snapshot_entry : String → Option (Bool × String)
parse_cancellation_snapshot_entry value = elim (strip_prefix cancelled_confirmed_prefix value) [
  | some key ↦ some (true, key)
  | none ↦ elim (strip_prefix cancelled_waiting_prefix value) [
    | some key ↦ some (false, key)
    | none ↦ none
  ]
]

-- `_game_time_period` searches the name of a game by a regular expression and is a parameter: the
-- first and the last minute, if the name has a period.
module _ (game_time_period : String → Option (ℕ × ℕ)) where
  abbrev pub periods_overlap : Option (ℕ × ℕ) → Option (ℕ × ℕ) → Bool
  periods_overlap (some (start, end)) (some (start', end')) =
      ltb (max_of start start') (min_of end end')
  periods_overlap _ _ = true

  unfoldable pub confirmation_times_conflict : Event → Event → Bool
  confirmation_times_conflict first second =
      periods_overlap (game_time_period first.name) (game_time_period second.name)

-- A sift entry reads back as the prefix and the key it was made of, for both prefixes.
pub parse-sift_snapshot_entry :
    (demoted : Bool) (key : String)
    → parse_sift_snapshot_entry
        (sift_snapshot_entry (if demoted then sift_demoted_prefix else sift_promoted_prefix) key)
      ≡ some (if demoted then sift_demoted_prefix else sift_promoted_prefix, key)
unfolding parse_sift_snapshot_entry sift_snapshot_entry
parse-sift_snapshot_entry true key =
    rw
      (
        strip_prefix-are_apart sift_promoted_prefix sift_demoted_prefix key apart,
        parse_sift_snapshot_entry,
      )
      (rw (strip_prefix-append sift_demoted_prefix key))
  where
    apart : are_apart sift_promoted_prefix sift_demoted_prefix ≡ true
    apart = unfold are_apart in refl
parse-sift_snapshot_entry false key =
    rw (strip_prefix-append sift_promoted_prefix key, parse_sift_snapshot_entry)

-- A cancellation entry reads back as the participant key and whether the player had confirmed.
parse-cancellation_snapshot_entry :
    (r : Registration)
    → parse_cancellation_snapshot_entry (cancellation_snapshot_entry r)
      ≡ some (r.attendance_status == AttendanceStatus.confirmed, r.participant_key)
unfolding parse_cancellation_snapshot_entry cancellation_snapshot_entry
parse-cancellation_snapshot_entry r =
    elim (Bool-cases (r.attendance_status == AttendanceStatus.confirmed)) [
      | inl e ↦ rw e (
          rw (
            strip_prefix-append cancelled_confirmed_prefix r.participant_key,
            parse_cancellation_snapshot_entry,
          ))
      | inr e ↦ rw e (
          rw
            (
              strip_prefix-are_apart cancelled_confirmed_prefix cancelled_waiting_prefix
                  r.participant_key apart,
              parse_cancellation_snapshot_entry,
            )
            (rw (strip_prefix-append cancelled_waiting_prefix r.participant_key)))
    ]
  where
    apart : are_apart cancelled_confirmed_prefix cancelled_waiting_prefix ≡ true
    apart = unfold are_apart in refl

-- Whether two games of one day exclude each other does not depend on which of them is named first.
confirmation_times_conflict_comm :
    (game_time_period : String → Option (ℕ × ℕ)) (first second : Event)
    → confirmation_times_conflict game_time_period first second
      ≡ confirmation_times_conflict game_time_period second first
unfolding confirmation_times_conflict
confirmation_times_conflict_comm period first second =
    by_period (period first.name) (period second.name)
  where
    by_period : (a b : Option (ℕ × ℕ)) → periods_overlap period a b ≡ periods_overlap period b a
    by_period none none = refl
    by_period none (some b) = refl
    by_period (some a) none = refl
    by_period (some (a, b)) (some (c, d)) = ground arith
