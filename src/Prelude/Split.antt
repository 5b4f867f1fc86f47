-- ===== src/Prelude/Split.antt =====
-- Python's `str.split(sep, 1)` and `str.split(sep)` for a separator of one character.
use packamal.Prelude.Texts.{Text}
use packamal.Prelude.Tests.{◌==◌, if◌then◌else◌}
use packamal.Prelude.Lists.{All}
use Prim.Native.Nat.{ℕ}
use mathlib.Core.Path.{◌≡◌, refl}
use mathlib.Core.Logic.{◌≢◌}
use mathlib.Core.List.{List, [], ◌∷◌, ◌++◌}
use mathlib.Core.Option.{Option, none, some}
use native.Mathlib.Omega.{arith}

abbrev before_first : ℕ → Option (Text × Text) → Option (Text × Text)
before_first c none = none
before_first c (some (a, b)) = some (c ∷ a, b)

-- The texts before and after the first `sep`, if there is one.
unfoldable pub split_once : ℕ → Text → Option (Text × Text)
split_once sep [] = none
split_once sep (c ∷ s) =
    let rest = split_once sep s in if c == sep then some ([], s) else before_first c rest

abbrev onto_first : ℕ → List Text → List Text
onto_first c [] = (c ∷ []) ∷ []
onto_first c (t ∷ ts) = (c ∷ t) ∷ ts

unfoldable pub split : ℕ → Text → List Text
split sep [] = [] ∷ []
split sep (c ∷ s) = let rest = split sep s in if c == sep then [] ∷ rest else onto_first c rest

-- The text has no `sep`.
abbrev pub Avoids : ℕ → Text → Type 0
Avoids sep = All (λ c. c ≢ sep)

pub split_once-append :
    (sep : ℕ) (a b : Text) → Avoids sep a → split_once sep (a ++ (sep ∷ b)) ≡ some (a, b)
unfolding split_once
split_once-append sep [] b h = ground arith
split_once-append sep (c ∷ a) b h = ground (arith, split_once-append sep a b h.1, h.0)

pub split_once-none : (sep : ℕ) (a : Text) → Avoids sep a → split_once sep a ≡ none
unfolding split_once
split_once-none sep [] h = refl
split_once-none sep (c ∷ a) h = ground (arith, split_once-none sep a h.1, h.0)

pub Avoids-append : (sep : ℕ) (a b : Text) → Avoids sep a → Avoids sep b → Avoids sep (a ++ b)
Avoids-append sep [] b h k = k
Avoids-append sep (c ∷ a) b h k = (h.0, Avoids-append sep a b h.1 k)

pub split-append :
    (sep : ℕ) (a b : Text) → Avoids sep a → split sep (a ++ (sep ∷ b)) ≡ a ∷ split sep b
unfolding split
split-append sep [] b h = ground arith
split-append sep (c ∷ a) b h = ground (arith, split-append sep a b h.1, h.0)

pub split-whole : (sep : ℕ) (a : Text) → Avoids sep a → split sep a ≡ a ∷ []
unfolding split
split-whole sep [] h = refl
split-whole sep (c ∷ a) h = ground (arith, split-whole sep a h.1, h.0)
