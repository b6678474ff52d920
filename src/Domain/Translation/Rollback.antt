-- ===== src/Domain/Translation/Rollback.antt =====
-- A rollback restores an earlier release: RollbackTranslations of backend/internal/domain/translation.go.
use sild.Common.{
  ℕ, suc, ◌<◌, String, List, [], ◌∷◌, map, keep, keep-sort_by, is_empty, All, ◌≡◌, true≢false, refl,
  sym, ap, ◌∙◌, arith, Bool-cases, inl, inr,
}
use sild.Store.Translations.{Bundle, Rows, release_bundles, latest_release}
use sild.Store.Translations.Versions.{IsReleased, top, below_next}
use sild.Domain.Translation.Commits.{
  at_, strings_of, published, next_top, is_ok, IsCommitted, commit-IsCommitted, committed_at,
  committed_before,
}
use sild.Domain.Translation.{ok, version_of}
use sild.Domain.Translation.Releases.{
  ReleaseView, next_version, release_of, as_version, rollback_translations,
}

-- All of the bundles that are given a version have it, and the strings that they had.
at-as_version : (v : ℕ) (bs : List Bundle) → at_ v (map (as_version v) bs) ≡ map (as_version v) bs
unfolding keep
at-as_version v [] = refl
at-as_version v (b ∷ bs) = ground (arith, at-as_version v bs)

strings_of-as_version :
    (locale : String) (v : ℕ) (bs : List Bundle)
    → strings_of locale (map (as_version v) bs) ≡ strings_of locale bs
unfolding keep
strings_of-as_version locale v [] = refl
strings_of-as_version locale v (b ∷ bs) = ground (arith, strings_of-as_version locale v bs)

as_version_other : (v w : ℕ) (bs : List Bundle) → w < v → at_ w (map (as_version v) bs) ≡ []
unfolding keep
as_version_other v w [] lt = refl
as_version_other v w (b ∷ bs) lt = ground (arith, as_version_other v w bs lt)

strings_released :
    (r : Rows) (to : ℕ) (locale : String)
    → strings_of locale
        (map (as_version (next_version (version_of (latest_release r)))) (release_bundles r to))
      ≡ published r locale to
unfolding release_bundles
strings_released r to locale =
    strings_of-as_version locale _ (release_bundles r to)
    ∙ ap (map (λ b. b.strings)) (keep-sort_by (λ b. b.locale) locale (at_ to r.bundles))

rollback-IsCommitted :
    (to : ℕ) (by_ id : String) (now : ℕ) (r s : Rows) (v : ReleaseView)
    → rollback_translations to by_ id now r ≡ (s, ok v)
    → IsCommitted r
        (release_of id (next_version (version_of (latest_release r))) by_ now)
        (map (as_version (next_version (version_of (latest_release r)))) (release_bundles r to))
        s
        v
unfolding rollback_translations
rollback-IsCommitted to by_ id now r s v h = elim (Bool-cases (is_empty (release_bundles r to))) [
  | inl e ↦ absurd (true≢false (sym (ap (λ x. is_ok x.1) (rw e at h))))
  | inr e ↦ commit-IsCommitted r id now _ by_ _ s v (rw e at h)
]

-- A rollback that succeeds cuts the version after the latest one, with the strings that the version it
-- goes back to has in each locale, and leaves what every locale has at each earlier version.
pub rollback_restores :
    (to : ℕ) (by_ id : String) (now : ℕ) (r s : Rows) (v : ReleaseView)
    → IsReleased r
    → rollback_translations to by_ id now r ≡ (s, ok v)
    → (v.version ≡ suc (top (latest_release r)))
      × ((locale : String)
          → (published s locale v.version ≡ published r locale to)
            × ((w : ℕ) → w < v.version → published s locale w ≡ published r locale w))
rollback_restores to by_ id now r s v i h = (
  c.answered ∙ next_top (latest_release r),
  λ locale. (
    rw c.answered (ap (strings_of locale) at_next ∙ strings_released r to locale),
    λ w lt. ap (strings_of locale) (
        committed_before r s _ _ v w c
          (as_version_other next w (release_bundles r to) (rw c.answered at lt))),
  ),
)
  where
    next : ℕ
    next = next_version (version_of (latest_release r))

    c :
        IsCommitted r
          (release_of id (next_version (version_of (latest_release r))) by_ now)
          (map (as_version (next_version (version_of (latest_release r)))) (release_bundles r to))
          s
          v
    c = rollback-IsCommitted to by_ id now r s v h

    below : All (λ (b : Bundle). b.version < next_version (version_of (latest_release r))) r.bundles
    below = rw (next_top (latest_release r)) (below_next r i)

    at_next :
        at_ (next_version (version_of (latest_release r))) s.bundles
        ≡ map (as_version (next_version (version_of (latest_release r)))) (release_bundles r to)
    at_next = committed_at r s _ _ v c below ∙ at-as_version next (release_bundles r to)
