-- ===== src/Domain/Translation/Reviews.antt =====
-- A translation waits for review once its source is reworded: backend/internal/domain/translation.go.
use sild.Common.{
  ℕ, String, List, [], ◌∷◌, ◌++◌, Bool, true, false, not, Option, some, str_eq, str_eq_iff,
  str_eq_refl, keep, keep-append, ◌≡◌, refl, sym, ap, ◌∙◌, arith, inl, inr, Dict, lookup, assign,
  lookup-assign, trim_space, if◌then◌else◌,
}
use mathlib.Core.Path.{subst}
use sild.I18n.{normalize, platform_project}
use sild.I18n.Catalog.{Catalog, source, text_at, text_or_empty, new_catalog}
use sild.Store.Translations.{
  Override, Bundle, Rows, put_override, put_key, locale_overrides, same_string,
}
use sild.Store.Translations.Steps.{create_release_cases}
use sild.Domain.Translation.{ok, ProjectView, catalog_for, translation_project}
use sild.Domain.Translation.Releases.{publish, commit_release, release_of}
use sild.Domain.Translation.Editing.{
  Stamp, only_error, publish_automatically, publish_if, own_project, put_translation_override,
  declare_translation_key,
}
use sild.Domain.Translation.Listing.{
  KeyState, custom, needs_review, by_key, state_of, key_view, view_key,
}
use sild.Domain.Translation.Keeps.{if_keeps}
use sild.Domain.Translation.Steps.{rows_committed, only_error_rows}
use sild.Domain.Translation.Succeeded.{with_ok_done, checked_done}
use sild.Domain.Translation.Live.{row_put}

by_key-append :
    (d : Dict Override) (xs ys : List Override) → by_key d (xs ++ ys) ≡ by_key (by_key d xs) ys
unfolding by_key
by_key-append d [] ys = refl
by_key-append d (o ∷ xs) ys = by_key-append (assign d o.key o) xs ys

-- The last row is the one that its key has.
last_by_key : (xs : List Override) (o : Override) → lookup (by_key [] (xs ++ o ∷ [])) o.key ≡ some o
unfolding by_key
last_by_key xs o = rw (by_key-append [] xs (o ∷ [])) (lookup-assign (by_key [] xs) o.key o)

-- The row that was written is among the locale's, the last one.
row_listed :
    (r : Rows) (o : Override)
    → lookup (by_key [] (locale_overrides (put_override r o) o.locale)) o.key ≡ some o
unfolding locale_overrides put_override keep
row_listed r o =
    rw
      (
        keep-append (λ p. str_eq p.locale o.locale)
            (keep (λ p. not (same_string o.locale o.key p)) r.overrides) (o ∷ []),
        str_eq_refl o.locale,
      )
      (last_by_key _ o)

-- The drafts of two states of the rows are the same.
record IsSameDrafts (r s : Rows) : Type 0 where
  same_keys : s.keys ≡ r.keys
  same_overrides : s.overrides ≡ r.overrides

commit_drafts :
    (r : Rows) (id : String) (now version : ℕ) (by_ : String) (new : List Bundle)
    → IsSameDrafts r (commit_release r id now version by_ new).0
commit_drafts r id now version by_ new =
    rw (rows_committed r id now version by_ new)
      (elim (create_release_cases r (release_of id version by_ now) new) [
        | inl e ↦ rw e (record { same_keys = refl; same_overrides = refl })
        | inr (e, inserted) ↦ rw e (record { same_keys = refl; same_overrides = refl })
      ])

publish_drafts :
    (shipped : Catalog) (proj : ProjectView) (by_ id : String) (now : ℕ) (r : Rows)
    → IsSameDrafts r (publish shipped proj by_ id now r).0
unfolding publish
publish_drafts shipped proj by_ id now r = commit_drafts r id now _ by_ _

auto_drafts :
    (shipped : Catalog) (proj : ProjectView) (stamp : Stamp) (r : Rows)
    → IsSameDrafts r (publish_automatically shipped proj stamp r).0
unfolding publish_automatically
auto_drafts shipped proj stamp r =
    if_keeps (IsSameDrafts r) proj.auto_publish
      (only_error (publish shipped proj "" stamp.id stamp.now r)) (r, ok tt)
      (rw (only_error_rows (publish shipped proj "" stamp.id stamp.now r))
        (publish_drafts shipped proj "" stamp.id stamp.now r))
      (record { same_keys = refl; same_overrides = refl })

publish_if_drafts :
    (may_publish : Bool) (shipped : Catalog) (proj : ProjectView) (stamp : Stamp) (r : Rows)
    → IsSameDrafts r (publish_if may_publish shipped proj stamp r).0
publish_if_drafts false shipped proj stamp r = record { same_keys = refl; same_overrides = refl }
publish_if_drafts true shipped proj stamp r = auto_drafts shipped proj stamp r

-- What the editor shows of a key's standing in a locale.
abbrev pub state_in :
    Catalog → (String → String) → String → ProjectView → Rows → String → String → KeyState
state_in shipped hash project proj r locale key =
    (view_key shipped hash project proj locale r key).state

source_new :
    (d : Dict String) (key text : String) → source (new_catalog (assign d key text)) key ≡ text
unfolding source text_at text_or_empty new_catalog lookup str_eq
source_new d key text = rw (lookup-assign d key text) refl

own_catalog :
    (shipped : Catalog) (project : String) (r : Rows)
    → str_eq project platform_project ≡ false
    → catalog_for shipped project r ≡ new_catalog r.keys
unfolding catalog_for
own_catalog shipped project r own = rw own refl

-- The row that a key has in a locale.
abbrev row_at : Rows → String → String → Option Override
row_at r locale key = lookup (by_key [] (locale_overrides r locale)) key

module _ (shipped : Catalog) (hash : String → String) (project : String) (proj : ProjectView)
    (own : str_eq project platform_project ≡ false) where
  -- The standing of a key that has a row, in a project of the tenant's own.
  standing :
      (r : Rows) (o : Override)
      → row_at r o.locale o.key ≡ some o
      → state_in shipped hash project proj r o.locale o.key ≡ (
          if str_eq o.source_hash (hash (source (new_catalog r.keys) o.key))
          then custom
          else needs_review)
  unfolding view_key key_view catalog_for state_of
  standing r o there = rw (own, there) refl

  standing_custom :
      (r : Rows) (o : Override)
      → row_at r o.locale o.key ≡ some o
      → o.source_hash ≡ hash (source (new_catalog r.keys) o.key)
      → state_in shipped hash project proj r o.locale o.key ≡ custom
  standing_custom r o there same =
      standing r o there
      ∙ ground (arith, str_eq_iff o.source_hash (hash (source (new_catalog r.keys) o.key)), same)

  standing_review :
      (r : Rows) (o : Override)
      → row_at r o.locale o.key ≡ some o
      → str_eq o.source_hash (hash (source (new_catalog r.keys) o.key)) ≡ false
      → state_in shipped hash project proj r o.locale o.key ≡ needs_review
  standing_review r o there other = standing r o there ∙ ground (arith, other)

-- The row that was written is listed where the drafts are those after the write.
rows_listed :
    (r s : Rows) (o : Override)
    → IsSameDrafts (put_override r o) s
    → row_at s o.locale o.key ≡ some o
unfolding locale_overrides
rows_listed r s o same =
    subst (λ os. lookup (by_key [] (keep (λ p. str_eq p.locale o.locale) os)) o.key ≡ some o)
      (sym same.same_overrides) (row_listed r o)

module _ (shipped : Catalog) (hash : String → String) (project : String) (r s : Rows) where
  put_written :
      (given key value : String) (may_publish : Bool) (stamp : Stamp)
      → put_translation_override shipped hash project given key value may_publish stamp r
        ≡ (s, ok tt)
      → IsSameDrafts (put_override r (row_put shipped hash project given key value r)) s
  unfolding put_translation_override
  put_written given key value may_publish stamp h =
      let (proj, read, h1) = with_ok_done r s (translation_project shipped project r) _ tt h in
      let (free, h2) = checked_done r s _ _ tt h1 in
      let o = row_put shipped hash project given key value r in
      subst (IsSameDrafts (put_override r o)) (ap (λ x. x.0) h2)
        (publish_if_drafts may_publish shipped proj stamp (put_override r o))

  key_declared :
      (key text : String) (stamp : Stamp)
      → declare_translation_key shipped project key text stamp r ≡ (s, ok tt)
      → IsSameDrafts (put_key r (trim_space key) (trim_space text)) s
  unfolding declare_translation_key
  key_declared key text stamp h =
      let (proj, read, h1) = with_ok_done r s (own_project shipped project r) _ tt h in
      let (free, h2) = checked_done r s _ _ tt h1 in
      subst (IsSameDrafts (put_key r (trim_space key) (trim_space text))) (ap (λ x. x.0) h2)
        (auto_drafts shipped proj stamp (put_key r (trim_space key) (trim_space text)))

-- In a project of the tenant's own a translation that was written, published at once or not, stands as
-- custom, and as waiting for review once its key is declared anew with a source of another hash.
pub reworded_reviewed :
    (shipped : Catalog) (hash : String → String)
    (project given key value given_key reworded : String) (may_publish : Bool) (stamp later : Stamp)
    (proj : ProjectView) (r s t : Rows)
    → str_eq project platform_project ≡ false
    → trim_space given_key ≡ key
    → put_translation_override shipped hash project given key value may_publish stamp r ≡ (s, ok tt)
    → declare_translation_key shipped project given_key reworded later s ≡ (t, ok tt)
    → str_eq (hash (source (catalog_for shipped project r) key)) (hash (trim_space reworded))
      ≡ false
    → (state_in shipped hash project proj s (normalize given) key ≡ custom)
      × (state_in shipped hash project proj t (normalize given) key ≡ needs_review)
unfolding locale_overrides put_override put_key catalog_for
reworded_reviewed shipped hash project given key value given_key reworded may_publish stamp later
      proj r s t own trimmed put_ declare other =
    let o = row_put shipped hash project given key value r in
    let written = put_written shipped hash project r s given key value may_publish stamp put_ in
    let drafts = key_declared shipped hash project s t given_key reworded later declare in
    let listed = rows_listed r s o written in
    let new_source =
      ap (λ ks. source (new_catalog ks) key) drafts.same_keys
      ∙ ap (λ k. source (new_catalog (assign s.keys k (trim_space reworded))) key) trimmed
      ∙ source_new s.keys key (trim_space reworded) in
    (
      standing_custom shipped hash project proj own s o listed (
          ap (λ c. hash (source c key))
            (own_catalog shipped project r own ∙ ap new_catalog (sym written.same_keys))),
      standing_review shipped hash project proj own t o
          (subst
            (λ os.
              lookup (by_key [] (keep (λ p. str_eq p.locale (normalize given)) os)) key ≡ some o)
            (sym drafts.same_overrides) listed)
          (rw new_source other),
    )
