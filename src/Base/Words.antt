-- ===== src/Base/Words.antt =====
-- Python's methods on texts that go by white space, and the length of a text in UTF-16.
use Prim.Native.Nat.{ℕ, ◌+◌, ◌≤◌}
use Prim.Native.Char.{Char, code}
use Prim.Native.String.{String}
use Prim.Native.String.append
use mathlib.Core.Path.{◌≡◌}
use mathlib.Core.Logic.{inl, inr}
use mathlib.Core.Bool.{Bool, true, false, ◌||◌}
use mathlib.Core.List.{List, [], ◌∷◌}
use native.Mathlib.Omega.{arith}
use rolebot_hse.Base.Tests.{ltb, Bool-cases, if◌then◌else◌}
use rolebot_hse.Base.Text.{◌&◌}

abbrev pub is_empty : String → Bool
is_empty String.[] = true
is_empty (String.◌∷◌ _ _) = false

-- `separator.join(texts)`
unfoldable pub join : String → List String → String
join separator [] = ""
join separator (s ∷ []) = s
join separator (s ∷ t ∷ ts) = s & separator & join separator (t ∷ ts)

-- `len(character.encode("utf-16-le")) // 2`
abbrev pub units : Char → ℕ
units c = if ltb 65535 (code c) then 2 else 1

-- `len(text.encode("utf-16-le")) // 2`
unfoldable pub message_length : String → ℕ
message_length String.[] = 0
message_length (String.◌∷◌ c s) = units c + message_length s

pub message_length-append :
    (s t : String) → message_length (s & t) ≡ message_length s + message_length t
unfolding message_length
message_length-append String.[] t = rw (append.nil t) (omega arith)
message_length-append (String.◌∷◌ c s) t =
    rw (append.cons c s t) (omega (arith, message_length-append s t))

-- `isspace` is the test of `str.isspace` on one character.
module _ (isspace : Char → Bool) where
  unfoldable pub any_space : String → Bool
  any_space String.[] = false
  any_space (String.◌∷◌ c s) = isspace c || any_space s

  unfoldable pub lstrip : String → String
  lstrip String.[] = String.[]
  lstrip (String.◌∷◌ c s) = let rest = lstrip s in if isspace c then rest else String.◌∷◌ c s

  -- A character in front of what is left of the text behind it.
  abbrev pub before : Char → String → String
  before c String.[] = if isspace c then String.[] else String.◌∷◌ c String.[]
  before c (String.◌∷◌ d s) = String.◌∷◌ c (String.◌∷◌ d s)

  unfoldable pub rstrip : String → String
  rstrip String.[] = String.[]
  rstrip (String.◌∷◌ c s) = before c (rstrip s)

  unfoldable pub strip : String → String
  unfolding lstrip rstrip
  strip s = rstrip (lstrip s)

  -- Whether the text starts with a space or is empty.
  abbrev pub ends_word : String → Bool
  ends_word String.[] = true
  ends_word (String.◌∷◌ c s) = isspace c

  abbrev pub longer_first : Char → List String → List String
  longer_first c [] = String.◌∷◌ c String.[] ∷ []
  longer_first c (w ∷ ws) = String.◌∷◌ c w ∷ ws

  -- `text.split()`
  unfoldable pub split : String → List String
  split String.[] = []
  split (String.◌∷◌ c s) =
      let rest = split s in
      if isspace c
      then rest
      else if ends_word s
      then String.◌∷◌ c String.[] ∷ rest
      else longer_first c rest

  message_length-before :
      (c : Char) (s : String) → message_length (before c s) ≤ units c + message_length s
  unfolding message_length
  message_length-before c String.[] = elim (Bool-cases (isspace c)) [
    | inl e ↦ rw e (omega arith)
    | inr e ↦ rw e (omega arith)
  ]
  message_length-before c (String.◌∷◌ d s) = ground arith

  pub message_length-rstrip-le : (s : String) → message_length (rstrip s) ≤ message_length s
  unfolding rstrip message_length
  message_length-rstrip-le String.[] = omega arith
  message_length-rstrip-le (String.◌∷◌ c s) =
      omega (arith, message_length-before c (rstrip s), message_length-rstrip-le s)
