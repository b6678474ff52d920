-- ===== src/Domain/Translation/Accepted.antt =====
-- The settings that the service saves: backend/internal/domain/translation.go.
use mathlib.Core.Option.{none-ne-some, some-injective}
use mathlib.Core.Path.{subst}
use sild.Common.{
  String, List, [], ◌∷◌, ◌++◌, Bool, true, false, not, ◌||◌, some, str_eq, contains, All,
  All-append, All-sort_by, contains-sort_texts, each_char, ◌≡◌, refl, sym, ap, ◌∙◌, arith,
  Bool-cases, inl, inr, Option-cases, sort_texts, true≢false,
}
use sild.Models.Rbac.{scope_all}
use sild.I18n.{source_locale, normalize, valid_language}
use sild.Store.Translations.Steps.{IsSetting}
use sild.Domain.Translation.{ok, clean_locales, accepted_locales}
use sild.Domain.Translation.Succeeded.{ok_injective}
use sild.Domain.Translation.Commits.{is_ok}

clean_tags :
    (clean ls out : List String)
    → All (λ (l : String). valid_language l ≡ true) clean
    → clean_locales clean ls ≡ some out
    → All (λ (l : String). valid_language l ≡ true) out
unfolding clean_locales
clean_tags clean [] out h e = subst (All _) (some-injective clean out e) h
clean_tags clean (l ∷ ls) out h e =
    elim (Bool-cases (not (valid_language (normalize l)) || str_eq (normalize l) scope_all)) [
      | inl bad ↦ absurd (none-ne-some out (rw bad at e))
      | inr good ↦ elim (Bool-cases (contains clean (normalize l))) [
        | inl there ↦ clean_tags clean ls out h (rw (good, there) at e)
        | inr new ↦
            clean_tags (clean ++ normalize l ∷ []) ls out
              (All-append _ clean (normalize l ∷ []) h (ground arith, tt)) (rw (good, new) at e)
      ]
    ]

-- The settings that SaveTranslationProject accepts.
pub accepted-IsSetting :
    (name given : String) (auto : Bool) (ls clean : List String)
    → accepted_locales (normalize given) ls ≡ ok clean
    → IsSetting
        (record { name = name; fallback_locale = normalize given; auto_publish = auto })
        clean
unfolding accepted_locales sort_texts
accepted-IsSetting name given auto ls clean h = elim (Bool-cases (str_eq (normalize given) "")) [
  | inl e ↦ absurd (true≢false (sym (ap is_ok (rw e at h))))
  | inr e ↦ elim (Option-cases (clean_locales [] ls)) [
    | inl f ↦ absurd (true≢false (sym (ap is_ok (rw (e, f) at h))))
    | inr (out, f) ↦ elim (Bool-cases (contains out (normalize given))) [
      | inr g ↦ absurd (true≢false (sym (ap is_ok (rw (e, f, g) at h))))
      | inl g ↦ subst (IsSetting _) (ok_injective _ _ (rw (e, f, g) at h)) (record {
        tags = All-sort_by _ (λ t. t) out (clean_tags [] ls out tt f);
        fallback_in = contains-sort_texts (normalize given) out ∙ g;
      })
    ]
  ]
]

-- A project starts with the source language.
pub new-IsSetting :
    (name : String)
    → IsSetting
        (record { name = name; fallback_locale = source_locale; auto_publish = false })
        (source_locale ∷ [])
unfolding valid_language contains str_eq each_char
new-IsSetting name = record { tags = (refl, tt); fallback_in = refl }
