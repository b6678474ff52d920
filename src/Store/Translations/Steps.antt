-- ===== src/Store/Translations/Steps.antt =====
-- The statements on the translation tables that keep the project, and what any sequence of them keeps:
-- backend/internal/store/gormstore/translation.go.
use sild.Common.{
  ℕ, String, List, [], ◌∷◌, ◌++◌, true, false, some, str_eq, str_eq_iff, any, contains, keep,
  keep-append, keep_none, append-nil, append_assoc, ◌∙◌, All, ◌≡◌, ◌≢◌, refl, sym, arith,
  Bool-cases, inl, inr, ◌⊎◌, Option-cases,
}
use sild.I18n.{valid_language}
use sild.Store.Translations.{
  Project, Override, Release, Bundle, Rows, save_project, put_key, delete_key, put_override,
  delete_override, is_bundle, is_taken, insert_bundles, create_release,
}

-- The settings that the service saves: the locales are language tags, and the fallback is one of them.
pub record IsSetting (p : Project) (locales : List String) : Type 0 where
  pub tags : All (λ (l : String). valid_language l ≡ true) locales
  pub fallback_in : contains locales p.fallback_locale ≡ true

-- One statement of a call: every call of the service but a deletion is a sequence of these, and calls that run at the
-- same time interleave them. The bundles of a release carry its version.
pub data Step : Rows → Rows → Type 0 where
  saves :
      (r : Rows) (p : Project) (locales : List String)
      → IsSetting p locales
      → Step r (save_project r p locales).1
  puts_key : (r : Rows) (key source : String) → Step r (put_key r key source)
  deletes_key : (r : Rows) (key : String) → Step r (delete_key r key)
  puts_override : (r : Rows) (o : Override) → Step r (put_override r o)
  deletes_override : (r : Rows) (locale key : String) → Step r (delete_override r locale key)
  releases :
      (r : Rows) (rel : Release) (new : List Bundle)
      → All (λ (b : Bundle). b.version ≡ rel.version) new
      → Step r (create_release r rel new).1

pub data Steps : Rows → Rows → Type 0 where
  rests : (r : Rows) → Steps r r
  then_ : (r s t : Rows) → Step r s → Steps s t → Steps r t

pub single : (r s : Rows) → Step r s → Steps r s
single r s st = then_ r s s st (rests s)

pub two : (r s t : Rows) → Step r s → Steps s t → Steps r t
two r s t a b = then_ r s t a b

cons≢nil {ℓ} : {A : Type ℓ} {x : A} {xs : List A} → x ∷ xs ≢ []
cons≢nil h = ground arith

-- The first insert of several that are all taken.
insert_first :
    (rows : List Bundle) (b : Bundle) (bs after : List Bundle)
    → insert_bundles rows (b ∷ bs) ≡ some after
    → (is_taken rows b ≡ false) × (insert_bundles (rows ++ b ∷ []) bs ≡ some after)
unfolding insert_bundles
insert_first rows b bs after h = (ground arith, ground arith)

-- The inserts of a release that commits add its bundles as they are.
pub insert_bundles-some :
    (rows new after : List Bundle) → insert_bundles rows new ≡ some after → after ≡ rows ++ new
unfolding insert_bundles
insert_bundles-some rows [] after h = ground (arith, append-nil rows)
insert_bundles-some rows (b ∷ bs) after h =
    insert_bundles-some (rows ++ b ∷ []) bs after (insert_first rows b bs after h).1
    ∙ append_assoc rows (b ∷ []) bs

module _ (locale : String) (version : ℕ) (old : Bundle) where
  same_taken :
      (rows : List Bundle) (b : Bundle)
      → is_bundle locale version b ≡ true
      → is_taken rows b ≡ any (is_bundle locale version) rows
  unfolding is_taken
  same_taken rows b e = rw (same_locale, same_version) refl
    where
      same_locale : b.locale ≡ locale
      same_locale = (str_eq_iff b.locale locale).0 (ground arith)

      same_version : b.version ≡ version
      same_version = ground arith

  not_taken :
      (rows : List Bundle) (b : Bundle)
      → keep (is_bundle locale version) rows ≡ old ∷ []
      → is_taken rows b ≡ false
      → is_bundle locale version b ≡ false
  not_taken rows b k free = elim (Bool-cases (is_bundle locale version b)) [
    | inr e ↦ e
    | inl e ↦ absurd (
        cons≢nil
          (sym k ∙ keep_none (is_bundle locale version) rows (sym (same_taken rows b e) ∙ free)))
  ]

  keep-add :
      (rows : List Bundle) (b : Bundle)
      → keep (is_bundle locale version) rows ≡ old ∷ []
      → is_taken rows b ≡ false
      → keep (is_bundle locale version) (rows ++ b ∷ []) ≡ old ∷ []
  unfolding keep
  keep-add rows b k free =
      ground (arith, keep-append (is_bundle locale version) rows (b ∷ []), not_taken rows b k free)

  -- A row under the locale and the version stays the only one.
  keep-insert_bundles :
      (rows new after : List Bundle)
      → keep (is_bundle locale version) rows ≡ old ∷ []
      → insert_bundles rows new ≡ some after
      → keep (is_bundle locale version) after ≡ old ∷ []
  unfolding insert_bundles
  keep-insert_bundles rows [] after k h = ground arith
  keep-insert_bundles rows (b ∷ bs) after k h =
      keep-insert_bundles (rows ++ b ∷ []) bs after
        (keep-add rows b k (insert_first rows b bs after h).0) (insert_first rows b bs after h).1

-- A release commits with all of its bundles, or nothing is written.
pub create_release_cases :
    (r : Rows) (rel : Release) (new : List Bundle)
    → (create_release r rel new ≡ (false, r))
      ⊎ ((create_release r rel new
            ≡ (true, record r { releases = r.releases ++ rel ∷ []; bundles = r.bundles ++ new }))
          × (insert_bundles r.bundles new ≡ some (r.bundles ++ new)))
unfolding create_release
create_release_cases r rel new = elim (Bool-cases (any (λ s. str_eq s.id rel.id) r.releases)) [
  | inl e ↦ inl (ground arith)
  | inr e ↦ elim (Option-cases (insert_bundles r.bundles new)) [
    | inl none_ ↦ inl (ground arith)
    | inr (after, some_) ↦ inr (
      ground (arith, insert_bundles-some r.bundles new after some_),
      ground (arith, insert_bundles-some r.bundles new after some_),
    )
  ]
]

module _ (locale : String) (version : ℕ) (old : Bundle) where
  Step-keeps :
      (r s : Rows)
      → Step r s
      → keep (is_bundle locale version) r.bundles ≡ old ∷ []
      → keep (is_bundle locale version) s.bundles ≡ old ∷ []
  unfolding save_project put_key delete_key put_override delete_override
  Step-keeps _ _ (saves r p locales setting) k = ground arith
  Step-keeps _ _ (puts_key r key source) k = k
  Step-keeps _ _ (deletes_key r key) k = k
  Step-keeps _ _ (puts_override r o) k = k
  Step-keeps _ _ (deletes_override r l key) k = k
  Step-keeps _ _ (releases r rel new v) k = elim (create_release_cases r rel new) [
    | inl e ↦ rw e k
    | inr (e, inserted) ↦
        rw e (keep-insert_bundles locale version old r.bundles new (r.bundles ++ new) k inserted)
  ]

  -- A published bundle is immutable: once a row stands under a locale and a version, any sequence of
  -- statements, those of racing calls included, leaves it as it is and the only one there, as long as
  -- the project is not deleted.
  pub published_immutable :
      (r s : Rows)
      → Steps r s
      → keep (is_bundle locale version) r.bundles ≡ old ∷ []
      → keep (is_bundle locale version) s.bundles ≡ old ∷ []
  published_immutable _ _ (rests r) k = k
  published_immutable _ _ (then_ r s t st sts) k = published_immutable s t sts (Step-keeps r s st k)
