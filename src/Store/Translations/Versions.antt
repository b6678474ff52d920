-- ===== src/Store/Translations/Versions.antt =====
-- Versions of releases and bundles: backend/internal/store/gormstore/translation.go.
use sild.Common.{
  ℕ, suc, ◌≤◌, ◌<◌, List, [], ◌∷◌, ◌++◌, Bool, true, false, ◌||◌, Option, none, some, any,
  any-append, All, All-append, All-imp, ◌==◌, ◌≡◌, arith, Bool-cases, inl, inr,
}
use sild.Store.Translations.{
  Release, Bundle, Rows, no_rows, save_project, put_key, delete_key, put_override, delete_override,
  distinct, newer, latest_of, latest_release,
}
use sild.Store.Translations.Steps.{
  Step, saves, puts_key, deletes_key, puts_override, deletes_override, releases, Steps, rests,
  then_, create_release_cases,
}

abbrev pub has_version : ℕ → Release → Bool
has_version v rel = rel.version == v

abbrev pub Released : List Release → Bundle → Type 0
Released rels b = any (has_version b.version) rels ≡ true

-- Every bundle is one of a release.
pub record IsReleased (r : Rows) : Type 0 where
  pub released : All (Released r.releases) r.bundles

no_rows-IsReleased : IsReleased no_rows
no_rows-IsReleased = record { released = tt }

still-Released :
    (rels : List Release) (rel : Release) (bs : List Bundle)
    → All (Released rels) bs
    → All (Released (rels ++ rel ∷ [])) bs
still-Released rels rel bs h =
    All-imp bs (λ b e. rw (any-append (has_version b.version) rels (rel ∷ [])) (ground (arith, e)))
      h

new-Released :
    (rels : List Release) (rel : Release) (new : List Bundle)
    → All (λ (b : Bundle). b.version ≡ rel.version) new
    → All (Released (rels ++ rel ∷ [])) new
unfolding any
new-Released rels rel new v =
    All-imp new (λ b e. rw (any-append (has_version b.version) rels (rel ∷ [])) (here b e)) v
  where
    here :
        (b : Bundle)
        → b.version ≡ rel.version
        → (any (has_version b.version) rels || (rel.version == b.version || false)) ≡ true
    here b e = ground (arith, e)

Step-IsReleased : (r s : Rows) → Step r s → IsReleased r → IsReleased s
unfolding save_project put_key delete_key put_override delete_override
Step-IsReleased _ _ (saves r p locales setting) i = elim (Bool-cases (distinct locales)) [
  | inl e ↦ rw e (record { released = i.released })
  | inr e ↦ rw e i
]
Step-IsReleased _ _ (puts_key r key source) i = record { released = i.released }
Step-IsReleased _ _ (deletes_key r key) i = record { released = i.released }
Step-IsReleased _ _ (puts_override r o) i = record { released = i.released }
Step-IsReleased _ _ (deletes_override r l key) i = record { released = i.released }
Step-IsReleased _ _ (releases r rel new v) i = elim (create_release_cases r rel new) [
  | inl e ↦ rw e i
  | inr (e, inserted) ↦ rw e (record {
    released =
        All-append (Released (r.releases ++ rel ∷ [])) r.bundles new
          (still-Released r.releases rel r.bundles i.released) (new-Released r.releases rel new v);
  })
]

pub run-IsReleased : (r s : Rows) → Steps r s → IsReleased r → IsReleased s
run-IsReleased _ _ (rests r) i = i
run-IsReleased _ _ (then_ r s t st sts) i = run-IsReleased s t sts (Step-IsReleased r s st i)

-- The version of a release, 0 for none.
abbrev pub top : Option Release → ℕ
top none = 0
top (some rel) = rel.version

top-newer :
    (rel : Release) (o : Option Release)
    → (rel.version ≤ top (some (newer rel o))) × (top o ≤ top (some (newer rel o)))
top-newer rel none = (ground arith, ground arith)
top-newer rel (some s) = (ground arith, ground arith)

latest_bound :
    (rels : List Release) (v : ℕ) → any (has_version v) rels ≡ true → v ≤ top (latest_of rels)
unfolding any latest_of
latest_bound [] v h = absurd (ground arith)
latest_bound (rel ∷ rels) v h = elim (Bool-cases (rel.version == v)) [
  | inl e ↦ omega (arith, (top-newer rel (latest_of rels)).0, same rel.version v e)
  | inr e ↦ omega (arith, (top-newer rel (latest_of rels)).1, latest_bound rels v (rw e at h))
]
  where
    same : (a b : ℕ) → (a == b) ≡ true → a ≡ b
    same a b e = ground arith

-- The version after the latest one is above that of every bundle.
pub below_next :
    (r : Rows)
    → IsReleased r
    → All (λ (b : Bundle). b.version < suc (top (latest_release r))) r.bundles
unfolding latest_release
below_next r i =
    All-imp r.bundles (λ b e. omega (arith, latest_bound r.releases b.version e)) i.released
