-- ===== src/Manager/Create/Complete.antt =====
-- What a row that Create (controller/gameserver/manager.go) completed has gone through.
use game_janitor.Base.{String, ◌≡◌, refl, ap, sym, ◌∙◌, Bool, true, false, Option, none, some, []}
use game_janitor.Model.{Gameserver}
use game_janitor.Games.{Game}
use game_janitor.Manager.{Manager}
use game_janitor.Manager.Request.{passed, enforce_required}
use game_janitor.Manager.Request.Laws.{and_then-passed, passed-same}
use game_janitor.Manager.Create.{
  Answers, complete, target, apply_game_defaults, with_volume, autogenerate_all, default_env,
}
use game_janitor.Live.Config.{apply_overrides}

pub record IsComplete (a : Answers) (game : Game) (gs row : Gameserver) (w : String) (m : Manager)
    : Type 0 where
  pub reached : target m gs ≡ passed (some w)
  pub filled : apply_game_defaults a.passwords game gs ≡ passed row
  pub limited :
      enforce_required a.required row.memory_limit_mb row.cpu_limit row.storage_limit_mb ≡ passed tt
  pub has_volume : a.volume_created ≡ true

with_volume-passed :
    (created : Bool) (found : Option String) (w : String)
    → with_volume created found ≡ passed w
    → (found ≡ some w) × (created ≡ true)
unfolding with_volume
with_volume-passed created none w e = absurd cc
with_volume-passed true (some v) w e = (ap some (passed-same e), refl)
with_volume-passed false (some v) w e = absurd cc

pub complete-IsComplete :
    (a : Answers) (game : Game) (gs row : Gameserver) (w : String) (m : Manager)
    → complete a game gs m ≡ passed (row, w)
    → IsComplete a game gs row w m
unfolding complete
complete-IsComplete a game gs row w m e =
    let (found, is_found, e1) = and_then-passed (target m gs) _ (row, w) e in
    let (full, is_full, e2) =
      and_then-passed (apply_game_defaults a.passwords game gs) _ (row, w) e1 in
    let (_, limits, e3) =
      and_then-passed
        (enforce_required a.required full.memory_limit_mb full.cpu_limit full.storage_limit_mb) _
        (row, w) e2 in
    let (v, is_v, e4) = and_then-passed (with_volume a.volume_created found) _ (row, w) e3 in
    let (worker, created) = with_volume-passed a.volume_created found v is_v in
    let same : full ≡ row = ap (λ x. x.0) (passed-same e4) in
    let same_worker : v ≡ w = ap (λ x. x.1) (passed-same e4) in
    record {
      reached = is_found ∙ ap passed (worker ∙ ap some same_worker);
      filled = is_full ∙ ap passed same;
      limited =
          sym (
            ap (λ x. enforce_required a.required x.memory_limit_mb x.cpu_limit x.storage_limit_mb)
              same)
          ∙ limits;
      has_volume = created;
    }

pub filled-id :
    (passwords : String → Option String) (game : Game) (gs row : Gameserver)
    → apply_game_defaults passwords game gs ≡ passed row
    → row.id ≡ gs.id
unfolding apply_game_defaults
filled-id passwords game gs row e =
    let env = apply_overrides gs.env (default_env game.default_env []) in
    let (full, _, e1) = and_then-passed (autogenerate_all passwords game.default_env env) _ row e in
    ap (λ x. x.id) (sym (passed-same e1))
