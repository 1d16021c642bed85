-- ===== src/Warning.antt =====
-- controller/warning/warning.go: the warnings about a gameserver's storage. The bus is the list of what
-- was published on it, newest first.
pub mod Told
mod Tests
use game_janitor.Base.{
  ℕ, zero, suc, ◌+◌, ◌-◌, ◌*◌, ◌/◌, ◌%◌, ◌^◌, String, Bool, true, false, Option, none, some, List,
  [], ◌∷◌, if◌then◌else◌, ltb, leb, str_eq,
}
use game_janitor.Model.{ℤ, pos, negsuc}

-- The levels of a warning that fires, as the map of active warnings holds them.
pub data Level : Type 0 where
  warning : Level
  critical : Level

-- WarningData with the gameserver that the event is about; its level is none for "resolved".
pub record StorageWarning : Type 0 where
  pub gameserver_id : String
  pub level : Option Level
  pub used_mb : ℤ
  pub limit_mb : ℤ
  pub percentage : ℤ

pub record Subscriber : Type 0 where
  pub active : String → Option Level
  pub published : List StorageWarning

-- StatsData, as far as it is read.
pub record Stats : Type 0 where
  pub volume_size_bytes : ℤ
  pub storage_limit_mb : Option ℤ

-- The two thresholds, read from the settings at each check.
pub record Thresholds : Type 0 where
  pub critical_at : ℤ
  pub warning_at : ℤ

-- The int64 of 64 bits, and the number below 0 of a size.
unfoldable pub int64 : ℕ → ℤ
int64 n =
    let bits = n % 2 ^ 64 in if ltb bits (2 ^ 63) then pos bits else negsuc (2 ^ 64 - (bits + 1))

unfoldable pub negative_of : ℕ → ℤ
negative_of zero = pos 0
negative_of (suc n) = negsuc n

-- A product of int64s, the second above 0.
unfoldable pub product : ℤ → ℕ → ℤ
product (pos a) k = int64 (a * k)
product (negsuc a) k = int64 (2 ^ 64 - ((a + 1) * k) % 2 ^ 64)

-- Go's quotient, which truncates towards 0; none is the panic for a divisor of 0.
unfoldable pub quotient : ℤ → ℤ → Option ℤ
quotient a (pos zero) = none
quotient (pos a) (pos (suc b)) = some (pos (a / suc b))
quotient (negsuc a) (pos (suc b)) = some (negative_of ((a + 1) / suc b))
quotient (pos a) (negsuc b) = some (negative_of (a / (b + 1)))
quotient (negsuc a) (negsuc b) = some (pos ((a + 1) / (b + 1)))

abbrev pub le_int : ℤ → ℤ → Bool
le_int (pos a) (pos b) = leb a b
le_int (pos a) (negsuc b) = false
le_int (negsuc a) (pos b) = true
le_int (negsuc a) (negsuc b) = leb b a

-- newLevel
unfoldable pub new_level : Thresholds → ℤ → Option Level
new_level t pct =
    if le_int t.critical_at pct
    then some critical
    else if le_int t.warning_at pct
    then some warning
    else none

-- newLevel == currentLevel
abbrev pub same_level : Option Level → Option Level → Bool
same_level none none = true
same_level (some warning) (some warning) = true
same_level (some critical) (some critical) = true
same_level _ _ = false

-- The end of checkStorage: the map and the bus after a change, nothing where there is none.
unfoldable pub set_level : StorageWarning → Subscriber → Subscriber
set_level e w = if same_level e.level (w.active e.gameserver_id) then w else record {
  active = λ id. if str_eq e.gameserver_id id then e.level else w.active id;
  published = e ∷ w.published;
}

-- checkStorage for a limit that is set; none is a panic.
unfoldable pub check_limit : Thresholds → String → ℤ → ℤ → Subscriber → Option Subscriber
check_limit t id size limit w = elim (quotient (product size 100) (product limit 1048576)) [
  | none ↦ none
  | some pct ↦ elim (quotient size (pos 1048576)) [
    | none ↦ none
    | some used ↦ some (
        set_level
          (record {
            gameserver_id = id;
            level = new_level t pct;
            used_mb = used;
            limit_mb = limit;
            percentage = pct;
          })
          w)
  ]
]

-- checkStorage
unfoldable pub check_storage : Thresholds → String → Stats → Subscriber → Option Subscriber
check_storage t id stats w = elim stats.storage_limit_mb [
  | none ↦ some w
  | some limit ↦
      if le_int limit (pos 0) then some w else check_limit t id stats.volume_size_bytes limit w
]

-- New
abbrev pub new_subscriber : Subscriber
new_subscriber = record { active = λ id. none; published = [] }

-- The loop of Start over the stats that arrive before it is cancelled.
unfoldable pub check_all : List (Thresholds × String × Stats) → Subscriber → Option Subscriber
check_all [] w = some w
check_all ((t, id, stats) ∷ later) w = elim (check_storage t id stats w) [
  | none ↦ none
  | some next ↦ check_all later next
]
