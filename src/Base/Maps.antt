-- ===== src/Base/Maps.antt =====
-- Go maps with text keys as association lists. The order of the list is the order in which one
-- `range` visits the map; Go leaves it open.
use mathlib.Core.Path.{◌≡◌, refl}
use mathlib.Core.Bool.{true}
use mathlib.Core.Option.{Option, none, some}
use mathlib.Core.List.{List, [], ◌∷◌}
use Prim.Native.String.{String}
use native.Mathlib.Omega.{arith}
use text.Mathlib.Text.{◌==◌}
use text.Mathlib.TextEquality.{eq_iff}
use cloudzero_agent.Base.Tests.{if◌then◌else◌}

module _ {ℓ} {V : Type ℓ} where
  -- `value, ok := entries[key]`
  unfoldable pub lookup : String → List (String × V) → Option V
  lookup key [] = none
  lookup key ((j, value) ∷ entries) = if j == key then some value else lookup key entries

  -- No key stands twice.
  abbrev pub IsMap : List (String × V) → Type ℓ
  IsMap [] = Unit
  IsMap ((k, v) ∷ m) = (lookup k m ≡ none) × IsMap m

  abbrev pub or_else : Option V → Option V → Option V
  or_else none d = d
  or_else (some v) d = some v

  -- Keys that are tested equal are looked up alike.
  pub lookup_same :
      (j k : String) (m : List (String × V))
      → (j == k) ≡ true
      → lookup j m ≡ none
      → lookup k m ≡ none
  lookup_same j k m e h = rw ((eq_iff j k).0 e) at h

  -- `entries[key] = value`: the entry keeps its place if the key is there, else it comes last.
  unfoldable pub insert : String → V → List (String × V) → List (String × V)
  insert key value [] = (key, value) ∷ []
  insert key value (entry ∷ entries) =
      let rest = insert key value entries in
      if entry.0 == key then (key, value) ∷ entries else entry ∷ rest

  pub lookup-insert :
      (key k : String) (value : V) (entries : List (String × V))
      → lookup k (insert key value entries) ≡ (if key == k then some value else lookup k entries)
  unfolding lookup insert
  lookup-insert key k value [] = refl
  lookup-insert key k value ((j, w) ∷ entries) =
      ground (arith, lookup-insert key k value entries, eq_iff j key, eq_iff j k, eq_iff key k)

  -- `maps.Copy(dst, src)`
  unfoldable pub copy : List (String × V) → List (String × V) → List (String × V)
  copy dst [] = dst
  copy dst ((k, v) ∷ src) = copy (insert k v dst) src

  pub insert-IsMap : (k : String) (v : V) (m : List (String × V)) → IsMap m → IsMap (insert k v m)
  unfolding lookup insert
  insert-IsMap k v [] h = (refl, tt)
  insert-IsMap k v ((j, w) ∷ m) (h, hs) =
      ground (arith, eq_iff j k, eq_iff k j, lookup-insert k j v m, insert-IsMap k v m hs)

  pub lookup-copy :
      (k : String) (dst src : List (String × V))
      → IsMap src
      → lookup k (copy dst src) ≡ or_else (lookup k src) (lookup k dst)
  unfolding copy lookup
  lookup-copy k dst [] h = refl
  lookup-copy k dst ((j, v) ∷ src) (h, hs) =
      ground (arith, eq_iff j k, lookup-copy k (insert j v dst) src hs, lookup-insert j k v dst)

  pub copy-IsMap : (dst src : List (String × V)) → IsMap dst → IsMap (copy dst src)
  unfolding copy
  copy-IsMap dst [] h = h
  copy-IsMap dst ((k, v) ∷ src) h = copy-IsMap (insert k v dst) src (insert-IsMap k v dst h)

  pub lookup-copy_nil :
      (k : String) (src : List (String × V)) → IsMap src → lookup k (copy [] src) ≡ lookup k src
  unfolding lookup
  lookup-copy_nil k src h = ground (arith, lookup-copy k [] src h)
