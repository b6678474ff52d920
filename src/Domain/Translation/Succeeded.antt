-- ===== src/Domain/Translation/Succeeded.antt =====
-- What a call of backend/internal/domain/translation.go that succeeds has got past.
use sild.Common.{
  ℕ, String, Bool, true, false, Option, none, some, str_eq, contains, if◌then◌else◌, ◌≡◌, refl, sym,
  ap, ◌∙◌, arith, Bool-cases, inl, inr, trim_space, true≢false,
}
use sild.I18n.Catalog.{Catalog, declared}
use sild.Store.Translations.{Rows}
use sild.Domain.Translation.{
  Answer, ok, refused, ProjectView, with_ok, checked, translation_project, project_view, exists,
}
use sild.Domain.Translation.Commits.{is_ok}
use sild.Domain.Translation.Releases.{ReleaseView, publish, publish_translations}
use sild.Domain.Translation.Editing.{Stamp, only_error, publish_automatically, override_refusal}

-- A project that is there is what a call that succeeds has read.
pub publish_there :
    (shipped : Catalog) (project by_ id : String) (now : ℕ) (r s : Rows) (v : ReleaseView)
    → publish_translations shipped project by_ id now r ≡ (s, ok v)
    → publish shipped (project_view shipped project r) by_ id now r ≡ (s, ok v)
unfolding publish_translations translation_project
publish_there shipped project by_ id now r s v h = elim (Bool-cases (exists project r)) [
  | inl e ↦ rw e at h
  | inr e ↦ absurd (true≢false (sym (ap (λ x. is_ok x.1) (rw e at h))))
]

if_true {ℓ} : {A : Type ℓ} (b : Bool) (x y : A) → b ≡ true → (if b then x else y) ≡ x
if_true true x y h = refl
if_true false x y h = absurd (true≢false (sym h))

-- A publication that goes with a write, when the write succeeds.
pub auto_published :
    (shipped : Catalog) (proj : ProjectView) (stamp : Stamp) (r s : Rows)
    → proj.auto_publish ≡ true
    → publish_automatically shipped proj stamp r ≡ (s, ok tt)
    → (v : ReleaseView) × (publish shipped proj "" stamp.id stamp.now r ≡ (s, ok v))
unfolding publish_automatically
auto_published shipped proj stamp r s on h =
    go (publish shipped proj "" stamp.id stamp.now r) (sym (if_true proj.auto_publish _ _ on) ∙ h)
  where
    go :
        (x : Rows × Answer ReleaseView)
        → only_error x ≡ (s, ok tt)
        → (v : ReleaseView) × (x ≡ (s, ok v))
    go (t, ok v) e = (v, ap (λ y. (y.0, ok v)) e)
    go (t, refused f) e = absurd (true≢false (sym (ap (λ y. is_ok y.1) e)))

-- What a call that succeeds has got past.
pub with_ok_done {ℓ κ} :
    {A : Type ℓ} {B : Type κ} (r s : Rows) (a : Answer A) (f : A → Rows × Answer B) (b : B)
    → with_ok r a f ≡ (s, ok b)
    → (x : A) × (a ≡ ok x) × (f x ≡ (s, ok b))
with_ok_done r s (ok x) f b h = (x, refl, h)
with_ok_done r s (refused e) f b h = absurd (true≢false (sym (ap (λ y. is_ok y.1) h)))

pub checked_done {ℓ} :
    {A : Type ℓ} (r s : Rows) (o : Option String) (x : Rows × Answer A) (a : A)
    → checked r o x ≡ (s, ok a)
    → (o ≡ none) × (x ≡ (s, ok a))
checked_done r s none x a h = (refl, h)
checked_done r s (some why) x a h = absurd (true≢false (sym (ap (λ y. is_ok y.1) h)))

pub ok_injective {ℓ} : {A : Type ℓ} (a b : A) → ok a ≡ ok b → a ≡ b
ok_injective a b h = ap (λ x. elim x [ ok y ↦ y | refused e ↦ a ]) h

pub project_read :
    (shipped : Catalog) (project : String) (r : Rows) (proj : ProjectView)
    → translation_project shipped project r ≡ ok proj
    → proj ≡ project_view shipped project r
unfolding translation_project
project_read shipped project r proj h = elim (Bool-cases (exists project r)) [
  | inl e ↦ sym (ok_injective _ _ (rw e at h))
  | inr e ↦ absurd (true≢false (sym (ap is_ok (rw e at h))))
]

-- What the guards of PutTranslationOverride let through.
pub override_accepted :
    (cat : Catalog) (proj : ProjectView) (locale key value : String)
    → override_refusal cat proj locale key value ≡ none
    → (contains proj.locales locale ≡ true)
      × (declared cat key ≡ true)
      × (str_eq (trim_space value) "" ≡ false)
unfolding override_refusal
override_accepted cat proj locale key value h = (ground arith, ground arith, ground arith)
