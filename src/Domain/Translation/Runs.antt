-- ===== src/Domain/Translation/Runs.antt =====
-- Any sequence of calls on a project: backend/internal/domain/translation.go.
use sild.Common.{String, List, [], ◌∷◌, sym, inl, inr}
use mathlib.Core.Path.{subst}
use sild.I18n.Catalog.{Catalog}
use sild.Store.Translations.{Rows, delete_project}
use sild.Store.Translations.Versions.{IsReleased, run-IsReleased}
use sild.Store.Translations.Settings.{IsConfigured, no_rows-IsConfigured, Steps-IsConfigured}
use sild.Domain.Translation.Steps.{Call, call, calls, call-Steps}

-- What holds of the rows of a project that is sound.
abbrev IsSound : Rows → Type 0
IsSound r = IsReleased r × IsConfigured r

call-IsSound :
    (shipped : Catalog) (hash : String → String) (project : String) (r : Rows) (c : Call)
    → IsSound r
    → IsSound (call shipped hash project r c)
unfolding delete_project
call-IsSound shipped hash project r c (i, j) = elim (call-Steps shipped hash project r c) [
  | inl steps ↦ (run-IsReleased r _ steps i, Steps-IsConfigured r _ steps j)
  | inr (deletion, gone) ↦ subst IsSound (sym gone) (record { released = tt }, no_rows-IsConfigured)
]

-- Any sequence of calls, deletions included, leaves every bundle one of a release, and the enabled locales
-- of a project distinct language tags that its fallback is one of.
pub calls-IsSound :
    (shipped : Catalog) (hash : String → String) (project : String) (r : Rows) (cs : List Call)
    → IsReleased r
    → IsConfigured r
    → IsReleased (calls shipped hash project r cs) × IsConfigured (calls shipped hash project r cs)
unfolding calls
calls-IsSound shipped hash project r [] i j = (i, j)
calls-IsSound shipped hash project r (c ∷ cs) i j =
    let (i', j') = call-IsSound shipped hash project r c (i, j) in
    calls-IsSound shipped hash project (call shipped hash project r c) cs i' j'
