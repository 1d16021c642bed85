-- ===== src/Live/Lifecycle/Stale.antt =====
-- The instance id that executeStart finds in memory is the one that it clears: no step before that
-- changes it (controller/gameserver/lifecycle.go).
use game_janitor.Base.{
  ◌≡◌, ◌≢◌, refl, ◌∙◌, ◌&&◌, not, List, [], ◌∷◌, Option, some, Bool-cases, inl, inr, String,
  Option-cases, str_eq, ltb, ◌==◌, sym,
}
use game_janitor.Model.{OperationPhase, OperationProgress}
use game_janitor.Games.{Game, depot_app_id, requires_auth}
use game_janitor.Live.{System, set_phase, set_progress, set_error}
use game_janitor.Live.Lifecycle.{
  Run, Answers, completed, interrupted_run, broken, Done, and_then, abort, report_all, download,
  depot_step, image_step, copy_step, scripts_step, downloaded_as, download_failed, download_cached,
  downloaded, Download,
}

-- The id of the instance in memory.
abbrev pub held : System → Option String
held s = s.live.spec.instance_id

held-set_phase : (phase : OperationPhase) (s : System) → held (set_phase phase s) ≡ held s
unfolding set_phase
held-set_phase phase s = elim (Option-cases s.live.operation) [
  | inl e ↦ rw (e, set_phase) refl
  | inr (op, e) ↦ rw (e, set_phase) refl
]

held-set_progress : (p : OperationProgress) (s : System) → held (set_progress p s) ≡ held s
unfolding set_progress
held-set_progress p s = elim (Option-cases s.live.operation) [
  | inl e ↦ rw (e, set_progress) refl
  | inr (op, e) ↦ rw (e, set_progress) refl
]

held-report_all : (ps : List OperationProgress) (s : System) → held (report_all ps s) ≡ held s
unfolding report_all
held-report_all [] s = refl
held-report_all (p ∷ ps) s = elim (Bool-cases (ltb 0 p.total_bytes)) [
  | inl e ↦ rw (e, report_all) (held-report_all ps (set_progress p s) ∙ held-set_progress p s)
  | inr e ↦ rw (e, report_all) (held-report_all ps s)
]

held-downloaded_as : (d : Download) (r : Run) → held (downloaded_as d r).0.system ≡ held r.system
unfolding downloaded_as abort set_error
held-downloaded_as download_failed r = refl
held-downloaded_as download_cached r = refl
held-downloaded_as downloaded r = refl

pub held-depot_step :
    (a : Answers) (game : Game) (r : Run) → held (depot_step a game r).0.system ≡ held r.system
unfolding depot_step download abort set_error
held-depot_step a game r = elim (Bool-cases (depot_app_id game == 0)) [
  | inl e ↦ rw e refl
  | inr e ↦ rw e (elim (Bool-cases (requires_auth game.steam_login && str_eq a.refresh_token "")) [
    | inl f ↦ rw f refl
    | inr f ↦
        rw f
          (held-downloaded_as a.depot _ ∙ (held-report_all a.depot_progress _ ∙ held-set_phase _ _))
  ])
]

pub held-image_step : (a : Answers) (r : Run) → held (image_step a r).0.system ≡ held r.system
unfolding image_step abort set_error
held-image_step a r =
    let reported = held-report_all a.image_progress _ ∙ held-set_phase _ r.system in
    elim (Bool-cases a.image_pulled) [ inl e ↦ rw e reported | inr e ↦ rw e reported ]

held-copy_step :
    (a : Answers) (game : Game) (r : Run) → held (copy_step a game r).0.system ≡ held r.system
unfolding copy_step abort set_error
held-copy_step a game r =
    elim (Bool-cases (not (depot_app_id game == 0) && not r.system.live.spec.installed)) [
      | inr e ↦ rw e refl
      | inl e ↦ rw e (elim (Bool-cases a.depot_copied) [ inl f ↦ rw f refl | inr f ↦ rw f refl ])
    ]

-- A step that follows and leaves the id alone.
held-and_then :
    (d : Done) (k : Run → Done)
    → ((r : Run) → held (k r).0.system ≡ held r.system)
    → held (and_then d k).0.system ≡ held d.0.system
unfolding and_then
held-and_then (r, completed) k keeps = keeps r
held-and_then (r, interrupted_run) k keeps = refl
held-and_then (r, broken) k keeps = refl

pub held-scripts_step :
    (a : Answers) (game : Game) (r : Run) → held (scripts_step a game r).0.system ≡ held r.system
unfolding scripts_step abort set_error
held-scripts_step a game r = elim (Bool-cases a.scripts_prepared) [
  | inl e ↦ rw e (held-and_then (copy_step a game _) _ (λ r. refl) ∙ held-copy_step a game _)
  | inr e ↦ rw e refl
]

-- What the first steps need: an instance id in memory is not empty.
abbrev pub IsNamed : System → Type 0
IsNamed s = held s ≢ some ""

pub IsNamed-kept : (s t : System) → held t ≡ held s → IsNamed s → IsNamed t
IsNamed-kept s t same named e = named (sym same ∙ e)
