-- ===== src/Common/Dicts.antt =====
-- Go's maps from texts, and the tables that a text is the key of: lists of pairs, one for each key.
use Prim.Native.String.{String}
use mathlib.Core.Path.{◌≡◌}
use mathlib.Core.Bool.{false}
use mathlib.Core.Option.{Option, none, some}
use mathlib.Core.List.{List, [], ◌∷◌, map}
use native.Mathlib.Omega.{arith}
use sild.Common.Tests.{str_eq, str_eq_iff, str_eq_refl, if◌then◌else◌}

abbrev pub Dict {ℓ} : Type ℓ → Type ℓ
Dict A = List (String × A)

module _ {ℓ} {A : Type ℓ} where
  unfoldable pub lookup : Dict A → String → Option A
  lookup [] k = none
  lookup ((j, a) ∷ d) k = if str_eq j k then some a else lookup d k

  -- d[k] = a
  unfoldable pub assign : Dict A → String → A → Dict A
  assign [] k a = (k, a) ∷ []
  assign ((j, b) ∷ d) k a =
      let rest = assign d k a in if str_eq j k then (k, a) ∷ d else (j, b) ∷ rest

  -- delete(d, k)
  unfoldable pub erase : Dict A → String → Dict A
  erase [] k = []
  erase ((j, b) ∷ d) k = let rest = erase d k in if str_eq j k then rest else (j, b) ∷ rest

  unfoldable pub dict_keys : Dict A → List String
  dict_keys d = map (λ e. e.0) d

  pub lookup-assign : (d : Dict A) (k : String) (a : A) → lookup (assign d k a) k ≡ some a
  unfolding lookup assign
  lookup-assign [] k a = ground (arith, str_eq_refl k)
  lookup-assign ((j, b) ∷ d) k a = ground (arith, str_eq_refl k, lookup-assign d k a)

  pub lookup_other :
      (d : Dict A) (k k' : String) (a : A)
      → str_eq k k' ≡ false
      → lookup (assign d k a) k' ≡ lookup d k'
  unfolding lookup assign
  lookup_other [] k k' a h = ground arith
  lookup_other ((j, b) ∷ d) k k' a h = ground (arith, str_eq_iff j k, lookup_other d k k' a h)
