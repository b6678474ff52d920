-- ===== src/Domain/Translation/Commits.antt =====
-- What a release that commits has written: commitRelease of backend/internal/domain/translation.go.
use sild.Common.{
  ℕ, suc, ◌<◌, String, List, [], ◌∷◌, ◌++◌, Bool, true, false, Option, none, some, str_eq, map,
  keep, keep-append, append-nil, All, ◌==◌, ◌≡◌, true≢false, refl, sym, ap, arith, inl, inr, Dict,
}
use sild.Store.Translations.{Release, Bundle, Rows}
use sild.Store.Translations.Steps.{create_release_cases}
use sild.Store.Translations.Versions.{top}
use sild.Domain.Translation.{Answer, ok, refused, version_of}
use sild.Domain.Translation.Releases.{ReleaseView, next_version, commit_release, release_of}

-- The bundles of a version, in the order of the table.
abbrev pub at_ : ℕ → List Bundle → List Bundle
at_ version bs = keep (λ b. b.version == version) bs

-- The strings of the bundles of a locale.
abbrev pub strings_of : String → List Bundle → List (Dict String)
strings_of locale bs = map (λ b. b.strings) (keep (λ b. str_eq b.locale locale) bs)

-- What a locale has at a version.
abbrev pub published : Rows → String → ℕ → List (Dict String)
published r locale version = strings_of locale (at_ version r.bundles)

pub next_top : (o : Option Release) → next_version (version_of o) ≡ suc (top o)
unfolding next_version
next_top none = refl
next_top (some rel) = ground arith

-- A version that is above those of all bundles has none.
above_none : (v : ℕ) (bs : List Bundle) → All (λ (b : Bundle). b.version < v) bs → at_ v bs ≡ []
unfolding keep
above_none v [] h = refl
above_none v (b ∷ bs) h = ground (arith, h.0, above_none v bs h.1)

abbrev version_answered : Answer ReleaseView → ℕ
version_answered (ok v) = v.version
version_answered (refused e) = 0

abbrev pub is_ok {ℓ} : {A : Type ℓ} → Answer A → Bool
is_ok (ok a) = true
is_ok (refused e) = false

-- What a commit that succeeds has written, and what it answers.
pub record IsCommitted (r : Rows) (rel : Release) (new : List Bundle) (s : Rows) (v : ReleaseView)
    : Type 0 where
  pub rows_after : s ≡ record r { releases = r.releases ++ rel ∷ []; bundles = r.bundles ++ new }
  pub answered : v.version ≡ rel.version

pub commit-IsCommitted :
    (r : Rows) (id : String) (now version : ℕ) (by_ : String) (new : List Bundle) (s : Rows)
    (v : ReleaseView)
    → commit_release r id now version by_ new ≡ (s, ok v)
    → IsCommitted r (release_of id version by_ now) new s v
unfolding commit_release
commit-IsCommitted r id now version by_ new s v h =
    elim (create_release_cases r (release_of id version by_ now) new) [
      | inl e ↦ absurd (true≢false (sym (ap (λ x. is_ok x.1) (rw e at h))))
      | inr (e, inserted) ↦ record {
        rows_after = sym (ap (λ x. x.0) (rw e at h));
        answered = sym (ap (λ x. version_answered x.1) (rw e at h));
      }
    ]

-- A release under a version that is above those of all bundles: at the version stand its bundles, and
-- at every other one what stood there before.
pub committed_at :
    (r s : Rows) (rel : Release) (new : List Bundle) (v : ReleaseView)
    → IsCommitted r rel new s v
    → All (λ (b : Bundle). b.version < rel.version) r.bundles
    → at_ rel.version s.bundles ≡ at_ rel.version new
committed_at r s rel new v c below =
    rw
      (
        c.rows_after,
        keep-append (λ b. b.version == rel.version) r.bundles new,
        above_none rel.version r.bundles below,
      )
      refl

pub committed_before :
    (r s : Rows) (rel : Release) (new : List Bundle) (v : ReleaseView) (w : ℕ)
    → IsCommitted r rel new s v
    → at_ w new ≡ []
    → at_ w s.bundles ≡ at_ w r.bundles
committed_before r s rel new v w c free =
    rw (c.rows_after, keep-append (λ b. b.version == w) r.bundles new, free)
      (append-nil (at_ w r.bundles))
