-- ===== src/Domain/Translation/Manifests.antt =====
-- A manifest and the bundles that it names: backend/internal/domain/translation.go.
use sild.Common.{
  ℕ, String, List, [], ◌∷◌, true, Option, none, some, str_eq, str_eq_iff, map, contains,
  contains-map-sort_by, Dict, lookup, assign, lookup-assign, lookup_other, ◌≡◌, refl, sym, ap, ◌∙◌,
  arith, Bool-cases, inl, inr, true≢false, if◌then◌else◌,
}
use mathlib.Core.Option.{none-ne-some, some-injective}
use mathlib.Core.Path.{subst}
use sild.I18n.{valid_language}
use sild.I18n.Tags.{normalize_valid}
use sild.I18n.Catalog.{Catalog}
use sild.Store.Translations.{Bundle, Rows, bundle_at, release_locales}
use sild.Domain.Translation.{ok, translation_project, project_view, exists}
use sild.Domain.Translation.Commits.{at_, is_ok}
use sild.Domain.Translation.Succeeded.{ok_injective}
use sild.Domain.Translation.Published.{in_locale, find-at}
use sild.Domain.Translation.Releases.{
  Manifest, at_version, manifest_of, translation_manifest, translation_bundle,
}

lookup_same :
    (m : Dict ℕ) (j l : String) (v : ℕ) → str_eq j l ≡ true → lookup (assign m j v) l ≡ some v
lookup_same m j l v e =
    subst (λ k. lookup (assign m j v) k ≡ some v) ((str_eq_iff j l).0 e) (lookup-assign m j v)

lookup-at_version :
    (m : Dict ℕ) (v : ℕ) (ls : List String) (l : String)
    → lookup (at_version m v ls) l ≡ (if contains ls l then some v else lookup m l)
unfolding at_version contains
lookup-at_version m v [] l = refl
lookup-at_version m v (j ∷ ls) l = elim (Bool-cases (str_eq j l)) [
  | inl e ↦ ground (arith, lookup-at_version (assign m j v) v ls l, lookup_same m j l v e)
  | inr e ↦ ground (arith, lookup-at_version (assign m j v) v ls l, lookup_other m j l v e)
]

-- A locale that a list of bundles has is one that can be found.
found :
    (bs : List Bundle) (l : String)
    → contains (map (λ b. b.locale) bs) l ≡ true
    → (b : Bundle) × (in_locale bs l ≡ some b)
unfolding contains
found [] l h = absurd (true≢false (sym h))
found (b ∷ bs) l h = elim (Bool-cases (str_eq b.locale l)) [
  | inl e ↦ (b, rw e refl)
  | inr e ↦ rw e (found bs l (rw e at h))
]

-- A locale in the manifest of a project.
manifest_entry :
    (ls : List String) (v w : ℕ) (l : String)
    → lookup (at_version [] v ls) l ≡ some w
    → (w ≡ v) × (contains ls l ≡ true)
unfolding lookup
manifest_entry ls v w l h = elim (Bool-cases (contains ls l)) [
  | inl e ↦ (sym (some-injective v w (rw (lookup-at_version [] v ls l, e) at h)), e)
  | inr e ↦ absurd (none-ne-some w (rw (lookup-at_version [] v ls l, e) at h))
]

released_locale :
    (r : Rows) (v : ℕ) (l : String)
    → contains (release_locales r v) l ≡ true
    → (b : Bundle) × (in_locale (at_ v r.bundles) l ≡ some b)
unfolding release_locales
released_locale r v l h =
    found (at_ v r.bundles) l (sym (contains-map-sort_by (λ b. b.locale) l (at_ v r.bundles)) ∙ h)

served :
    (r : Rows) (v : ℕ) (l : String) (b : Bundle)
    → valid_language l ≡ true
    → in_locale (at_ v r.bundles) l ≡ some b
    → translation_bundle r l v ≡ ok b.strings
unfolding translation_bundle bundle_at
served r v l b valid h = ground (arith, normalize_valid l valid, find-at r.bundles l v)

version_entry :
    (r : Rows) (o : Option ℕ) (l : String) (v : ℕ)
    → lookup (elim o [ none ↦ [] | some w ↦ at_version [] w (release_locales r w) ]) l ≡ some v
    → contains (release_locales r v) l ≡ true
unfolding lookup
version_entry r none l v h = absurd (none-ne-some v h)
version_entry r (some w) l v h =
    let (same, there) = manifest_entry (release_locales r w) w v l h in
    subst (λ n. contains (release_locales r n) l ≡ true) (sym same) there

-- Every language that a manifest names can be fetched at the version that the manifest gives it.
pub manifest_served :
    (shipped : Catalog) (project : String) (r : Rows) (m : Manifest) (l : String) (v : ℕ)
    → translation_manifest shipped project r ≡ ok m
    → lookup m.locales l ≡ some v
    → valid_language l ≡ true
    → (strs : Dict String) × (translation_bundle r l v ≡ ok strs)
unfolding translation_manifest manifest_of translation_project
manifest_served shipped project r m l v h there valid = elim (Bool-cases (exists project r)) [
  | inr e ↦ absurd (true≢false (sym (ap is_ok (rw e at h))))
  | inl e ↦
      let (b, at_there) = released_locale r v l (
        version_entry r (project_view shipped project r).current_version l v
          (subst (λ x. lookup x.locales l ≡ some v) (sym (ok_injective _ _ (rw e at h))) there)) in
      (b.strings, served r v l b valid at_there)
]
