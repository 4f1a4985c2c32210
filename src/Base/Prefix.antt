-- ===== src/Base/Prefix.antt =====
-- `str.startswith` and `str.removeprefix` as one function.
use Prim.Native.Nat.{compare, Ordering}
use Prim.Native.Char.{code}
use Prim.Native.String.{String}
use Prim.Native.String.append
use mathlib.Core.Path.{◌≡◌}
use mathlib.Core.Bool.{Bool, true, false}
use mathlib.Core.Option.{Option, none, some}
use native.Mathlib.Omega.{arith}
use rolebot_hse.Base.Text.{◌&◌}

-- What stands behind the prefix, if the text starts with it.
unfoldable pub strip_prefix : String → String → Option String
strip_prefix String.[] s = some s
strip_prefix (String.◌∷◌ c p) String.[] = none
strip_prefix (String.◌∷◌ c p) (String.◌∷◌ d s) =
    let rest = strip_prefix p s in
    elim (compare (code c) (code d)) [ Ordering.eq ↦ rest | _ ↦ none ]

pub strip_prefix-append : (p s : String) → strip_prefix p (p & s) ≡ some s
unfolding strip_prefix
strip_prefix-append String.[] s = rw (append.nil s)
strip_prefix-append (String.◌∷◌ c p) s =
    rw (append.cons c p s) (ground (arith, strip_prefix-append p s))

-- Whether neither text starts with the other.
unfoldable pub are_apart : String → String → Bool
are_apart String.[] q = false
are_apart (String.◌∷◌ c p) String.[] = false
are_apart (String.◌∷◌ c p) (String.◌∷◌ d q) =
    let rest = are_apart p q in elim (compare (code c) (code d)) [ Ordering.eq ↦ rest | _ ↦ true ]

pub strip_prefix-are_apart : (p q s : String) → are_apart p q ≡ true → strip_prefix p (q & s) ≡ none
unfolding strip_prefix are_apart
strip_prefix-are_apart String.[] q s h = cc
strip_prefix-are_apart (String.◌∷◌ c p) String.[] s h = cc
strip_prefix-are_apart (String.◌∷◌ c p) (String.◌∷◌ d q) s h =
    rw (append.cons d q s) (ground (arith, strip_prefix-are_apart p q s, h))
