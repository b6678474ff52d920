-- ===== src/Store/Translations/Settings.antt =====
-- The settings of a project in its rows: backend/internal/store/gormstore/translation.go.
use sild.Common.{true, some, ◌≡◌, refl, Bool-cases, inl, inr}
use mathlib.Core.Option.{none-ne-some, some-injective}
use mathlib.Core.Path.{subst}
use sild.Store.Translations.{
  Project, Rows, no_rows, distinct, save_project, put_key, delete_key, put_override,
  delete_override,
}
use sild.Store.Translations.Steps.{
  IsSetting, Step, saves, puts_key, deletes_key, puts_override, deletes_override, releases, Steps,
  rests, then_, create_release_cases,
}

-- A row of the project comes with distinct language tags as its locales, its fallback among them.
pub record IsConfigured (r : Rows) : Type 0 where
  pub setting : (p : Project) → r.project ≡ some p → IsSetting p r.locales
  pub unique : distinct r.locales ≡ true

pub no_rows-IsConfigured : IsConfigured no_rows
no_rows-IsConfigured = record { setting = λ p e. absurd (none-ne-some p e); unique = refl }

Step-IsConfigured : (r s : Rows) → Step r s → IsConfigured r → IsConfigured s
unfolding save_project put_key delete_key put_override delete_override
Step-IsConfigured _ _ (saves r p locales given) i = elim (Bool-cases (distinct locales)) [
  | inl e ↦ rw e (record {
    setting = λ q same. subst (λ x. IsSetting x locales) (some-injective p q same) given;
    unique = e;
  })
  | inr e ↦ rw e i
]
Step-IsConfigured _ _ (puts_key r key source) i = record { setting = i.setting; unique = i.unique }
Step-IsConfigured _ _ (deletes_key r key) i = record { setting = i.setting; unique = i.unique }
Step-IsConfigured _ _ (puts_override r o) i = record { setting = i.setting; unique = i.unique }
Step-IsConfigured _ _ (deletes_override r l key) i = record {
  setting = i.setting;
  unique = i.unique;
}
Step-IsConfigured _ _ (releases r rel new v) i = elim (create_release_cases r rel new) [
  | inl e ↦ rw e i
  | inr (e, inserted) ↦ rw e (record { setting = i.setting; unique = i.unique })
]

-- Any sequence of statements of the service's calls keeps the settings in order.
pub Steps-IsConfigured : (r s : Rows) → Steps r s → IsConfigured r → IsConfigured s
Steps-IsConfigured _ _ (rests r) i = i
Steps-IsConfigured _ _ (then_ r s t st sts) i =
    Steps-IsConfigured s t sts (Step-IsConfigured r s st i)
