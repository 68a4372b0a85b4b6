-- ===== src/Base/Text.antt =====
-- Go's `strings` over the native texts: `HasPrefix`, `HasSuffix`, `Contains`, and cutting at a
-- separator of one character.
use Prim.Native.Char.{code}
use Prim.Native.Nat.{ℕ}
use Prim.Native.String
use Prim.Native.String.{String, [], ◌∷◌}
use mathlib.Core.Bool.{Bool, true, false, ◌&&◌, ◌||◌}
use mathlib.Core.List.{[], ◌∷◌}
use text.Mathlib.Text.{◌==◌}
use cloudzero_agent.Base.Tests.{eqb, if◌then◌else◌}

-- Joins two texts.
infixl 65 ◌++ₛ◌
abbrev pub ◌++ₛ◌ : String → String → String
s ++ₛ t = String.◌++◌ s t

-- `strings.HasPrefix(s, t)`
unfoldable pub has_prefix : String → String → Bool
has_prefix s [] = true
has_prefix [] (d ∷ t) = false
has_prefix (c ∷ s) (d ∷ t) = eqb (code c) (code d) && has_prefix s t

-- `strings.HasSuffix(s, t)`
unfoldable pub has_suffix : String → String → Bool
has_suffix [] t = "" == t
has_suffix (c ∷ s) t = (c ∷ s) == t || has_suffix s t

-- `strings.Contains(s, t)`
unfoldable pub contains : String → String → Bool
unfolding has_prefix
contains [] t = has_prefix "" t
contains (c ∷ s) t = has_prefix (c ∷ s) t || contains s t

-- `strings.TrimPrefix(s, t)`, on texts that begin with `t`
unfoldable pub trim_prefix : String → String → String
trim_prefix s [] = s
trim_prefix [] (d ∷ t) = []
trim_prefix (c ∷ s) (d ∷ t) = trim_prefix s t

-- The text before the first occurrence of a character, or all of it.
unfoldable pub before : ℕ → String → String
before sep [] = []
before sep (c ∷ s) = if eqb (code c) sep then [] else c ∷ before sep s
