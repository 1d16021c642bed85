-- ===== src/Model/Laws.antt =====
-- When the applied configuration of model/gameserver.go calls for a restart.
use game_janitor.Base.{
  String, ◌≡◌, ◌≢◌, refl, true, false, [], ◌∷◌, none, some, arith, lookup, all, str_eq, eq_iff, inl,
  inr, Option-cases, ==_iff,
}
use game_janitor.Model.{
  Env, Gameserver, AppliedConfig, env_equal, value_of, snapshot_config, config_differs,
  required_with, restart_required, bool_equal,
}

all-value_of :
    (other e : Env) (k v : String)
    → all (λ kv. str_eq (value_of other kv.0) kv.1) e ≡ true
    → lookup k e ≡ some v
    → value_of other k ≡ v
unfolding lookup
all-value_of other [] k v h f = cc
all-value_of other ((k', v') ∷ e) k v h f =
    ground (arith, eq_iff k' k, eq_iff (value_of other k') v', all-value_of other e k v)

-- Every variable with a value of one of two equal environments has the same value in the other; a
-- variable whose value is empty need not be there.
pub env_equal-lookup :
    (e other : Env) (k v : String)
    → env_equal e other ≡ true
    → lookup k e ≡ some v
    → v ≢ ""
    → lookup k other ≡ some v
unfolding env_equal
env_equal-lookup e other k v h f full =
    let same = all-value_of other e k v (ground arith) f in
    elim (Option-cases (lookup k other)) [
      | inl missing ↦ absurd (full (ground arith))
      | inr (w, found) ↦ ground arith
    ]

-- Where a gameserver with an instance and an applied configuration needs no restart, its limits are
-- those that were applied, and so is every variable that was applied with a value.
pub restart_required-applied :
    (gs : Gameserver) (ac : AppliedConfig) (instance_id : String)
    → gs.applied_config ≡ some ac
    → gs.instance_id ≡ some instance_id
    → restart_required gs ≡ false
    → (ac.memory_limit_mb ≡ gs.memory_limit_mb)
      × (ac.cpu_limit ≡ gs.cpu_limit)
      × (ac.cpu_enforced ≡ gs.cpu_enforced)
      × ((k v : String) → lookup k ac.env ≡ some v → v ≢ "" → lookup k gs.env ≡ some v)
unfolding restart_required required_with config_differs bool_equal
restart_required-applied gs ac instance_id a i h =
    let differs : config_differs ac gs ≡ false = ground arith in
    let env : env_equal ac.env gs.env ≡ true = ground arith in
    (
      ground arith,
      ground arith,
      ground arith,
      λ k v f full. env_equal-lookup ac.env gs.env k v env f full,
    )

-- A map has each key once.
abbrev pub IsMap : Env → Type 0
IsMap [] = Unit {0}
IsMap ((k, v) ∷ e) = (lookup k e ≡ none) × IsMap e

-- A map that holds the entries of `e` passes the loop of Env.Equal over `e`.
all-lookup :
    (other e : Env)
    → ((k v : String) → lookup k e ≡ some v → lookup k other ≡ some v)
    → IsMap e
    → all (λ kv. str_eq (value_of other kv.0) kv.1) e ≡ true
unfolding lookup
all-lookup other [] h m = refl
all-lookup other ((k, v) ∷ e) h (fresh, m) =
    let here = h k v (ground (arith, eq_iff k k)) in
    let later = all-lookup other e (λ j w f. h j w (ground (arith, eq_iff k j))) m in
    ground (arith, eq_iff v v)

-- Right after its configuration is recorded as the applied one, a gameserver whose environment has
-- each key once needs no restart.
pub restart_required-snapshot_config :
    (gs : Gameserver)
    → IsMap gs.env
    → restart_required (record gs { applied_config = some (snapshot_config gs) }) ≡ false
unfolding restart_required required_with config_differs bool_equal snapshot_config env_equal
restart_required-snapshot_config gs m =
    let same = all-lookup gs.env gs.env (λ k v f. f) m in
    ground (arith, ==_iff gs.memory_limit_mb gs.memory_limit_mb)
