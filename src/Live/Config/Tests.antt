-- ===== src/Live/Config/Tests.antt =====
-- Runs of mergeEnv and parseGameserverPorts (controller/gameserver/live.go).
use game_janitor.Base.{String, ◌≡◌, refl, true, false, List, [], ◌∷◌, lookup, insert}
use game_janitor.Model.{Env, PortMapping}
use game_janitor.Games.{EnvVar}
use game_janitor.Live.Config.{merge_env, merged, PortBinding}

abbrev var : String → String → String → EnvVar
var key default label = record {
  key = key;
  default = default;
  label = label;
  required = true;
  consent_required = false;
  autogenerate = "";
  system = false;
  triggers_install = false;
}

abbrev vars : List EnvVar
vars = var "MAP" "dust" "" ∷ var "NAME" "server" "Name" ∷ []

abbrev overrides : Env
overrides = ("NAME", "mine") ∷ []

abbrev env : Env
env = ("MAP", "dust") ∷ ("NAME", "mine") ∷ []

merge : merge_env vars overrides ≡ merged env
unfolding merge_env lookup insert
merge = refl

abbrev declared : List PortMapping
declared = record { name = "game"; port = 27_015; protocol = "" } ∷ []

abbrev allocated : List PortMapping
allocated = record { name = "game"; port = 28_000; protocol = "" } ∷ []

abbrev bound : List PortBinding
bound = record { port = 28_000; container_port = 27_015; protocol = "tcp" } ∷ []
