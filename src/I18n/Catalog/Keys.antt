-- ===== src/I18n/Catalog/Keys.antt =====
-- The keys of a catalogue are those that it declares: backend/internal/i18n/catalog.go.
use sild.Common.{
  String, List, [], ◌∷◌, Option, some, str_eq, contains, Dict, lookup, dict_keys, sort_texts,
  contains-sort_texts, ◌≡◌, refl, ◌∙◌, arith, Option-cases, inl, inr,
}
use mathlib.Core.Option.{none-ne-some, some-injective}
use mathlib.Core.Path.{subst}
use sild.I18n.{source_locale}
use sild.I18n.Catalog.{Catalog, read_files, load, new_catalog, text_at, is_there, declared}

-- The list of keys is that of the source strings.
pub record IsComplete (c : Catalog) : Type 0 where
  pub listed : (key : String) → contains c.keys key ≡ declared c key

contains-dict_keys {ℓ} :
    {A : Type ℓ} (d : Dict A) (key : String) → contains (dict_keys d) key ≡ is_there (lookup d key)
unfolding contains dict_keys lookup is_there
contains-dict_keys [] key = refl
contains-dict_keys ((j, a) ∷ d) key = ground (arith, contains-dict_keys d key)

pub new_catalog-IsComplete : (sources : Dict String) → IsComplete (new_catalog sources)
unfolding new_catalog declared text_at lookup str_eq
new_catalog-IsComplete sources = record {
  listed = λ key. contains-sort_texts key (dict_keys sources) ∙ contains-dict_keys sources key;
}

loaded :
    (by_locale : Dict (Dict String)) (sources : Dict String) (key : String)
    → lookup by_locale source_locale ≡ some sources
    → contains (sort_texts (dict_keys sources)) key ≡ is_there (text_at by_locale source_locale key)
unfolding text_at
loaded by_locale sources key f =
    rw (f, text_at) (contains-sort_texts key (dict_keys sources) ∙ contains-dict_keys sources key)

-- What load returns of the embedded files is complete.
pub load-IsComplete :
    (files : List (String × Option (Dict String))) (c : Catalog)
    → load files ≡ some c
    → IsComplete c
unfolding load declared
load-IsComplete files c h = elim (Option-cases (read_files files)) [
  | inl e ↦ absurd (none-ne-some _ (rw e at h))
  | inr (by_locale, e) ↦ elim (Option-cases (lookup by_locale source_locale)) [
    | inl f ↦ absurd (none-ne-some _ (rw (e, f) at h))
    | inr (sources, f) ↦
        subst IsComplete (some-injective _ _ (rw (e, f) at h))
          (record { listed = λ key. loaded by_locale sources key f })
  ]
]
