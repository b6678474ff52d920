-- ===== src/Domain/Translation/Steps.antt =====
-- The calls of backend/internal/domain/translation.go as sequences of statements, its deletion
-- apart.
use sild.Common.{
  ℕ, String, List, [], ◌∷◌, Bool, true, false, map, is_empty, All, ◌≡◌, ◌⊎◌, inl, inr, str_eq, refl,
  arith, Dict, trim_space, to_lower,
}
use sild.I18n.{normalize, platform_project}
use sild.I18n.Catalog.{Catalog}
use sild.Store.Translations.{
  Project, Bundle, Rows, create_release, save_project, delete_project, release_bundles,
  latest_release,
}
use sild.Store.Translations.Steps.{
  IsSetting, Step, Steps, saves, puts_key, deletes_key, puts_override, deletes_override, releases,
  rests, single, two,
}
use sild.Domain.Translation.{
  Answer, ok, refused, stored, ProjectView, translation_project, catalog_for,
  create_translation_project, delete_translation_project, create_refusal, save_translation_project,
  accepted_locales, version_of,
}
use sild.Domain.Translation.Accepted.{accepted-IsSetting, new-IsSetting}
use sild.Domain.Translation.Keeps.{with_ok_keeps, checked_keeps, if_keeps}
use sild.Domain.Translation.Releases.{
  commit_release, release_of, publish, publish_translations, rollback_translations, bundles_of,
  as_version, override_map, next_version,
}
use sild.Domain.Translation.Editing.{
  Stamp, only_error, publish_automatically, publish_if, override_refusal, put_translation_override,
  delete_translation_override, own_project, declare_refusal, declare_translation_key,
  undeclare_translation_key,
}

-- A call on one project, with what it is given.
pub data Call : Type 0 where
  creates : String → String → Call
  configures : String → String → Bool → List String → Call
  overrides_ : String → String → String → Bool → Stamp → Call
  resets : String → String → Bool → Stamp → Call
  declares : String → String → Stamp → Call
  undeclares : String → Stamp → Call
  publishes : String → Stamp → Call
  rolls_back : ℕ → String → Stamp → Call
  deletes : Call

-- The rows after a call, for a catalogue, a hash and a project.
unfoldable pub call : Catalog → (String → String) → String → Rows → Call → Rows
call shipped hash project r (creates slug name) = (create_translation_project shipped slug name r).0
call shipped hash project r (configures name fallback auto locales) =
    (save_translation_project shipped project name fallback auto locales r).0
call shipped hash project r (overrides_ locale key value may_publish stamp) =
    (put_translation_override shipped hash project locale key value may_publish stamp r).0
call shipped hash project r (resets locale key may_publish stamp) =
    (delete_translation_override shipped project locale key may_publish stamp r).0
call shipped hash project r (declares key source stamp) =
    (declare_translation_key shipped project key source stamp r).0
call shipped hash project r (undeclares key stamp) =
    (undeclare_translation_key shipped project key stamp r).0
call shipped hash project r (publishes by_ stamp) =
    (publish_translations shipped project by_ stamp.id stamp.now r).0
call shipped hash project r (rolls_back to by_ stamp) =
    (rollback_translations to by_ stamp.id stamp.now r).0
call shipped hash project r deletes = (delete_translation_project shipped project r).0

unfoldable pub calls : Catalog → (String → String) → String → Rows → List Call → Rows
calls shipped hash project r [] = r
calls shipped hash project r (c ∷ cs) =
    calls shipped hash project (call shipped hash project r c) cs

pub only_error_rows {ℓ} : {A : Type ℓ} (x : Rows × Answer A) → (only_error x).0 ≡ x.0
only_error_rows (r, ok v) = refl
only_error_rows (r, refused e) = refl

stored_rows {ℓ} : {A : Type ℓ} (f : Rows → A) (x : Bool × Rows) → (stored f x).0 ≡ x.1
stored_rows f (false, r) = refl
stored_rows f (true, r) = refl

-- What a commit leaves are the rows that CreateRelease leaves.
pub rows_committed :
    (r : Rows) (id : String) (now version : ℕ) (by_ : String) (bundles : List Bundle)
    → (commit_release r id now version by_ bundles).0
      ≡ (create_release r (release_of id version by_ now) bundles).1
unfolding commit_release
rows_committed r id now version by_ bundles = ground arith

commit-Steps :
    (r : Rows) (id : String) (now version : ℕ) (by_ : String) (bundles : List Bundle)
    → All (λ (b : Bundle). b.version ≡ version) bundles
    → Steps r (commit_release r id now version by_ bundles).0
commit-Steps r id now version by_ bundles v =
    rw (rows_committed r id now version by_ bundles)
      (single r _ (releases r (release_of id version by_ now) bundles v))

bundles_version :
    (cat : Catalog) (ov : Dict (Dict String)) (fallback : String) (version : ℕ) (ls : List String)
    → All (λ (b : Bundle). b.version ≡ version) (bundles_of cat ov fallback version ls)
unfolding bundles_of
bundles_version cat ov fallback version [] = tt
bundles_version cat ov fallback version (l ∷ ls) =
    (refl, bundles_version cat ov fallback version ls)

as_version-All :
    (version : ℕ) (bs : List Bundle)
    → All (λ (b : Bundle). b.version ≡ version) (map (as_version version) bs)
as_version-All version [] = tt
as_version-All version (b ∷ bs) = (refl, as_version-All version bs)

publish-Steps :
    (shipped : Catalog) (proj : ProjectView) (by_ id : String) (now : ℕ) (r : Rows)
    → Steps r (publish shipped proj by_ id now r).0
unfolding publish
publish-Steps shipped proj by_ id now r = commit-Steps r id now _ by_ _ (
    bundles_version (catalog_for shipped proj.slug r) (override_map [] r.overrides)
      proj.fallback_locale (next_version proj.current_version) proj.locales)

auto-Steps :
    (shipped : Catalog) (proj : ProjectView) (stamp : Stamp) (r : Rows)
    → Steps r (publish_automatically shipped proj stamp r).0
unfolding publish_automatically
auto-Steps shipped proj stamp r =
    if_keeps (Steps r) proj.auto_publish (only_error (publish shipped proj "" stamp.id stamp.now r))
      (r, ok tt)
      (rw (only_error_rows (publish shipped proj "" stamp.id stamp.now r))
        (publish-Steps shipped proj "" stamp.id stamp.now r))
      (rests r)

-- A statement, and what the call publishes behind it.
write-Steps :
    (may_publish : Bool) (shipped : Catalog) (proj : ProjectView) (stamp : Stamp) (r s : Rows)
    → Step r s
    → Steps r (publish_if may_publish shipped proj stamp s).0
write-Steps false shipped proj stamp r s st = single r s st
write-Steps true shipped proj stamp r s st = two r s _ st (auto-Steps shipped proj stamp s)

save-Steps {ℓ} :
    {A : Type ℓ} (f : Rows → A) (r : Rows) (p : Project) (locales : List String)
    → IsSetting p locales
    → Steps r (stored f (save_project r p locales)).0
save-Steps f r p locales setting =
    rw (stored_rows f (save_project r p locales)) (single r _ (saves r p locales setting))

module _ (shipped : Catalog) (hash : String → String) (project : String) (r : Rows) where
  override-Steps :
      (locale key value : String) (may_publish : Bool) (stamp : Stamp)
      → Steps r
          (put_translation_override shipped hash project locale key value may_publish stamp r).0
  unfolding put_translation_override
  override-Steps locale key value may_publish stamp =
      with_ok_keeps (Steps r) r (rests r) (translation_project shipped project r) _ (λ proj read.
        checked_keeps (Steps r) r (rests r)
          (override_refusal (catalog_for shipped project r) proj (normalize locale) key value) _
          (write-Steps may_publish shipped proj stamp r _ (puts_override r _)))

  -- What a call does to the rows: a sequence of statements that keep the project, or its deletion.
  abbrev IsCall : Call → Rows → Type 0
  IsCall c s = Steps r s ⊎ ((c ≡ deletes) × (s ≡ delete_project r))

  delete-IsCall : IsCall deletes (delete_translation_project shipped project r).0
  unfolding delete_translation_project
  delete-IsCall = if_keeps (IsCall deletes) (str_eq project platform_project) _ _ (inl (rests r)) (
      with_ok_keeps (IsCall deletes) r (inl (rests r)) (translation_project shipped project r) _
        (λ proj read. inr (refl, refl)))

  -- Every call does to the rows what a sequence of statements does that keeps the project, saves only accepted
  -- settings and writes a release only with bundles of its version, but for a deletion that goes through,
  -- which leaves no rows.
  pub call-Steps :
      (c : Call)
      → Steps r (call shipped hash project r c)
        ⊎ ((c ≡ deletes) × (call shipped hash project r c ≡ delete_project r))
  unfolding call create_translation_project save_translation_project delete_translation_override
      declare_translation_key undeclare_translation_key publish_translations rollback_translations
  call-Steps (creates slug name) = inl (
      checked_keeps (Steps r) r (rests r)
        (create_refusal (to_lower (trim_space slug)) (trim_space name) r) _
        (save-Steps _ r _ _ (new-IsSetting (trim_space name))))
  call-Steps (configures name fallback auto locales) = inl (
      with_ok_keeps (Steps r) r (rests r) (translation_project shipped project r) _ (λ cur read.
        with_ok_keeps (Steps r) r (rests r) (accepted_locales (normalize fallback) locales) _
          (λ clean taken_. save-Steps _ r _ clean (accepted-IsSetting _ _ _ _ clean taken_))))
  call-Steps (overrides_ locale key value may_publish stamp) =
      inl (override-Steps locale key value may_publish stamp)
  call-Steps (resets locale key may_publish stamp) = inl (
      with_ok_keeps (Steps r) r (rests r) (translation_project shipped project r) _ (λ proj read.
        write-Steps may_publish shipped proj stamp r _ (deletes_override r (normalize locale) key)))
  call-Steps (declares key source stamp) = inl (
      with_ok_keeps (Steps r) r (rests r) (own_project shipped project r) _ (λ proj read.
        checked_keeps (Steps r) r (rests r) (declare_refusal (trim_space key) (trim_space source)) _
          (write-Steps true shipped proj stamp r _ (puts_key r _ _))))
  call-Steps (undeclares key stamp) = inl (
      with_ok_keeps (Steps r) r (rests r) (own_project shipped project r) _
        (λ proj read. write-Steps true shipped proj stamp r _ (deletes_key r key)))
  call-Steps (publishes by_ stamp) = inl (
      with_ok_keeps (Steps r) r (rests r) (translation_project shipped project r) _
        (λ proj read. publish-Steps shipped proj by_ stamp.id stamp.now r))
  call-Steps (rolls_back to by_ stamp) = inl (
      if_keeps (Steps r) (is_empty (release_bundles r to)) _ _ (rests r) (
        commit-Steps r stamp.id stamp.now _ by_ _
          (as_version-All (next_version (version_of (latest_release r))) (release_bundles r to))))
  call-Steps deletes = delete-IsCall
