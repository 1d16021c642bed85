-- ===== src/Live/Config/Laws.antt =====
-- What mergeEnv and parseGameserverPorts (controller/gameserver/live.go) hand to an instance.
use game_janitor.Base.{
  ℕ, All, subst, String, ◌≡◌, ◌≢◌, refl, true, false, ◌&&◌, not, Option, none, some, List, [], ◌∷◌,
  ◌==◌, if◌then◌else◌, str_eq, lookup, insert, or_else, lookup-insert, arith, eq_iff, length, map,
  ◌<◌, sym,
}
use game_janitor.Model.{Env, PortMapping}
use game_janitor.Model.Laws.{IsMap}
use game_janitor.Games.{EnvVar}
use game_janitor.Live.Config.{
  apply_defaults, apply_overrides, missing_required, merged, merge_env, PortBinding, binding,
  parse_gameserver_ports,
}

-- The last default of a key that is not empty.
abbrev pub default_of : String → List EnvVar → Option String
default_of key [] = none
default_of key (v ∷ vs) =
    let later = default_of key vs in
    let own = if str_eq v.key key && not (str_eq v.default "") then some v.default else none in
    elim later [ some d ↦ some d | none ↦ own ]

abbrev first_of : Option String → Option String → Option String
first_of none later = later
first_of (some v) later = some v

lookup-apply_defaults :
    (key : String) (vs : List EnvVar) (env : Env)
    → lookup key (apply_defaults vs env) ≡ first_of (default_of key vs) (lookup key env)
unfolding apply_defaults
lookup-apply_defaults key [] env = refl
lookup-apply_defaults key (v ∷ vs) env =
    let step = lookup-insert v.key key v.default env in
    let rest =
      lookup-apply_defaults key vs
        (if str_eq v.default "" then env else insert v.key v.default env) in
    ground arith

lookup-apply_overrides :
    (key : String) (o env : Env)
    → IsMap o
    → lookup key (apply_overrides o env) ≡ first_of (lookup key o) (lookup key env)
unfolding apply_overrides lookup
lookup-apply_overrides key [] env m = refl
lookup-apply_overrides key ((k, v) ∷ rest) env (fresh, m) =
    let later = lookup-apply_overrides key rest (insert k v env) m in
    let step = lookup-insert k key v env in ground (arith, eq_iff k key)

merge_env-merged :
    (vars : List EnvVar) (overrides env : Env)
    → merge_env vars overrides ≡ merged env
    → env ≡ apply_overrides overrides (apply_defaults vars [])
unfolding merge_env
merge_env-merged vars overrides env e = ground arith

-- Where the own variables have each key once, the environment that an instance gets has for every key the gameserver's own value, where it has
-- one, and the game's default otherwise, where that is not empty; no other key is set.
pub merge_env-lookup :
    (vars : List EnvVar) (overrides env : Env) (key : String)
    → IsMap overrides
    → merge_env vars overrides ≡ merged env
    → lookup key env ≡ elim (lookup key overrides) [ some v ↦ some v | none ↦ default_of key vars ]
unfolding lookup
merge_env-lookup vars overrides env key m e =
    let same = merge_env-merged vars overrides env e in
    let over = lookup-apply_overrides key overrides (apply_defaults vars []) m in
    let under = lookup-apply_defaults key vars [] in ground arith

abbrev pub IsFilledIn : Env → EnvVar → Type 0
IsFilledIn env v =
    v.required ≡ true → (value : String) × (lookup v.key env ≡ some value) × (value ≢ "")

filled :
    (o : Option String)
    → str_eq (or_else o "") "" ≡ false
    → (value : String) × (o ≡ some value) × (value ≢ "")
filled none e = cc
filled (some value) e = (value, refl, λ empty. ground (arith, eq_iff value ""))

missing_required-none :
    (vs : List EnvVar) (env : Env) → missing_required vs env ≡ none → All (IsFilledIn env) vs
unfolding missing_required
missing_required-none [] env e = tt
missing_required-none (v ∷ vs) env e = (
  (λ need. filled (lookup v.key env) (ground arith)),
  missing_required-none vs env (ground arith),
)

-- An environment is handed on only where every variable that the game requires has a value that is
-- not empty.
pub merge_env-required :
    (vars : List EnvVar) (overrides env : Env)
    → merge_env vars overrides ≡ merged env
    → All (IsFilledIn env) vars
unfolding merge_env
merge_env-required vars overrides env e =
    let same = merge_env-merged vars overrides env e in
    let all_set =
      missing_required-none vars (apply_overrides overrides (apply_defaults vars []))
        (ground arith) in
    subst (λ x. All (IsFilledIn x) vars) (sym same) all_set

abbrev pub host_port : PortBinding → ℕ
host_port b = b.port

parse_step :
    (d : ℕ) (p : PortMapping) (later : Option (List PortBinding)) (bs : List PortBinding)
    → (if p.port == 0
        then none
        else elim later [ none ↦ none | some rest ↦ some (binding d p ∷ rest) ])
      ≡ some bs
    → (rest : List PortBinding) × (later ≡ some rest) × (bs ≡ binding d p ∷ rest) × (0 < p.port)
parse_step d p none bs e = absurd (ground arith)
parse_step d p (some rest) bs e = (rest, refl, ground arith, ground arith)

-- The bindings have the allocated ports in order, all of them valid, each with the game's own port
-- at the same place inside the container, where the game declares one.
pub parse_gameserver_ports-binds :
    (defaults ps : List PortMapping) (bs : List PortBinding)
    → parse_gameserver_ports defaults ps ≡ some bs
    → (map host_port bs ≡ map (λ p. p.port) ps)
      × All (λ p. 0 < p.port) ps
      × (length ps ≡ length defaults → map (λ b. b.container_port) bs ≡ map (λ d. d.port) defaults)
unfolding parse_gameserver_ports binding
parse_gameserver_ports-binds [] [] bs e = (ground arith, tt, λ _. ground arith)
parse_gameserver_ports-binds (d ∷ ds) [] bs e = (ground arith, tt, λ h. absurd (omega arith))
parse_gameserver_ports-binds [] (p ∷ ps) bs e =
    let (rest, f, g, ok) = parse_step p.port p (parse_gameserver_ports [] ps) bs e in
    let h = parse_gameserver_ports-binds [] ps rest f in
    (ground (arith, h.0), (ok, h.1), λ h. absurd (omega arith))
parse_gameserver_ports-binds (d ∷ ds) (p ∷ ps) bs e =
    let (rest, f, g, ok) = parse_step d.port p (parse_gameserver_ports ds ps) bs e in
    let h = parse_gameserver_ports-binds ds ps rest f in
    (ground (arith, h.0), (ok, h.1), λ l. ground (arith, h.2 (omega arith)))
