-- ===== src/Live/Config.antt =====
-- mergeEnv and parseGameserverPorts of controller/gameserver/live.go: what an instance is created
-- with. The environment is a map; the slice of KEY=VALUE texts lists it in any order.
pub mod Laws
mod Tests
use game_janitor.Base.{
  ℕ, String, ◌≡◌, Bool, true, false, ◌&&◌, ◌||◌, not, Option, none, some, List, [], ◌∷◌, ◌==◌,
  if◌then◌else◌, str_eq, lookup, insert, or_else,
}
use game_janitor.Model.{Env, PortMapping}
use game_janitor.Games.{EnvVar}

-- The defaults that are not empty; a later variable of the same key wins.
apply_defaults : List EnvVar → Env → Env
apply_defaults [] env = env
apply_defaults (v ∷ vs) env =
    apply_defaults vs (if str_eq v.default "" then env else insert v.key v.default env)

-- The overrides, on top.
unfoldable pub apply_overrides : Env → Env → Env
apply_overrides [] env = env
apply_overrides ((k, v) ∷ rest) env = apply_overrides rest (insert k v env)

-- The first required variable that is missing or empty, by its label where it has one.
missing_required : List EnvVar → Env → Option (String × String)
missing_required [] env = none
missing_required (v ∷ vs) env =
    let later = missing_required vs env in
    if v.required && str_eq (or_else (lookup v.key env) "") ""
    then some (v.key, if str_eq v.label "" then v.key else v.label)
    else later

-- An environment, or the key and the label of what is missing.
pub data Merged : Type 0 where
  merged : Env → Merged
  missing : String → String → Merged

-- mergeEnv
unfoldable pub merge_env : List EnvVar → Env → Merged
unfolding apply_defaults apply_overrides missing_required
merge_env vars overrides =
    let env = apply_overrides overrides (apply_defaults vars []) in
    elim (missing_required vars env) [ none ↦ merged env | some (key, label) ↦ missing key label ]

pub record PortBinding : Type 0 where
  pub port : ℕ
  pub container_port : ℕ
  pub protocol : String

binding : ℕ → PortMapping → PortBinding
binding container_port p = record {
  port = p.port;
  container_port = container_port;
  protocol = if str_eq p.protocol "" then "tcp" else p.protocol;
}

-- The loop of parseGameserverPorts, beside the game's default ports; the port 0 is refused.
unfoldable pub parse_gameserver_ports :
    List PortMapping → List PortMapping → Option (List PortBinding)
unfolding binding
parse_gameserver_ports defaults [] = some []
parse_gameserver_ports [] (p ∷ ps) =
    let later = parse_gameserver_ports [] ps in
    if p.port == 0
    then none
    else elim later [ none ↦ none | some bs ↦ some (binding p.port p ∷ bs) ]
parse_gameserver_ports (d ∷ ds) (p ∷ ps) =
    let later = parse_gameserver_ports ds ps in
    if p.port == 0
    then none
    else elim later [ none ↦ none | some bs ↦ some (binding d.port p ∷ bs) ]
