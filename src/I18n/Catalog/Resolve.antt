-- ===== src/I18n/Catalog/Resolve.antt =====
-- The text that a key resolves to, alone and in a bundle: backend/internal/i18n/catalog.go.
use sild.Common.{
  String, List, [], ◌∷◌, true, false, Option, none, some, str_eq, str_eq_iff, map, contains, Dict,
  lookup, ◌≡◌, refl, arith, Bool-cases, inl, inr,
}
use sild.I18n.{source_locale, normalize}
use sild.I18n.Catalog.{Catalog, text_at, default, filled_or, first_text, resolve, bundle}

filled :
    (o next : Option String) (t : String)
    → ((s : String) → next ≡ some s → str_eq s "" ≡ false)
    → filled_or o next ≡ some t
    → str_eq t "" ≡ false
unfolding filled_or
filled none next t later h = later t h
filled (some s) next t later h = ground (arith, later t)

first_text_filled :
    (c : Catalog) (ov : Dict (Dict String)) (ls : List String) (key t : String)
    → first_text c ov ls key ≡ some t
    → str_eq t "" ≡ false
unfolding first_text
first_text_filled c ov [] key t h = absurd (ground arith)
first_text_filled c ov (l ∷ ls) key t h = elim (Bool-cases (str_eq l "")) [
  | inl e ↦ first_text_filled c ov ls key t (rw (e, first_text) at h)
  | inr e ↦
      filled (text_at ov l key) (filled_or (default c l key) (first_text c ov ls key)) t
        (λ s.
          filled (default c l key) (first_text c ov ls key) s
            (λ s'. first_text_filled c ov ls key s'))
        (rw (e, first_text) at h)
]

-- No key that has a name resolves to an empty text.
pub resolve_filled :
    (c : Catalog) (ov : Dict (Dict String)) (locale fallback key : String)
    → str_eq key "" ≡ false
    → str_eq (resolve c ov locale fallback key) "" ≡ false
unfolding resolve
resolve_filled c ov locale fallback key h =
    go (first_text c ov (normalize locale ∷ normalize fallback ∷ source_locale ∷ []) key) refl
  where
    go :
        (o : Option String)
        → first_text c ov (normalize locale ∷ normalize fallback ∷ source_locale ∷ []) key ≡ o
        → str_eq (elim o [ none ↦ key | some t ↦ t ]) "" ≡ false
    go none e = h
    go (some t) e = first_text_filled c ov _ key t e

-- A filled override in the locale asked for is what the key resolves to.
pub resolve_override :
    (c : Catalog) (ov : Dict (Dict String)) (locale fallback key t : String)
    → str_eq (normalize locale) "" ≡ false
    → text_at ov (normalize locale) key ≡ some t
    → str_eq t "" ≡ false
    → resolve c ov locale fallback key ≡ t
unfolding resolve first_text filled_or
resolve_override c ov locale fallback key t named there filled_ = ground arith

lookup-map :
    (f : String → String) (ks : List String) (k : String)
    → contains ks k ≡ true
    → lookup (map (λ j. (j, f j)) ks) k ≡ some (f k)
unfolding lookup contains
lookup-map f [] k h = absurd (ground arith)
lookup-map f (j ∷ ks) k h = elim (Bool-cases (str_eq j k)) [
  | inl e ↦ rw (e, lookup) (rw ((str_eq_iff j k).0 e) refl)
  | inr e ↦ rw (e, lookup) (lookup-map f ks k (ground arith))
]

-- A bundle holds every key of the catalogue, with the text that it resolves to.
pub lookup-bundle :
    (c : Catalog) (ov : Dict (Dict String)) (locale fallback key : String)
    → contains c.keys key ≡ true
    → lookup (bundle c ov locale fallback) key ≡ some (resolve c ov locale fallback key)
unfolding bundle
lookup-bundle c ov locale fallback key h = lookup-map (resolve c ov locale fallback) c.keys key h
