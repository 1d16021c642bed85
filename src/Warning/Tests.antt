-- ===== src/Warning/Tests.antt =====
-- A volume fills, stays full and is emptied (controller/warning/warning.go).
use game_janitor.Base.{ℕ, ◌*◌, String, refl, some, none, List, [], ◌∷◌, arith}
use game_janitor.Model.{pos}
use game_janitor.Warning.{Stats, Thresholds, check_all, new_subscriber}
use game_janitor.Warning.Told.{
  IsTold, none_yet, last_told, InRange, nothing, no_limit, limited, EndsTold, check_all-EndsTold,
}

abbrev percent : Thresholds
percent = record { critical_at = pos 95; warning_at = pos 80 }

abbrev uses : ℕ → Stats
uses mb = record { volume_size_bytes = pos (mb * 1048576); storage_limit_mb = some (pos 100) }

abbrev samples : List (Thresholds × String × Stats)
samples =
    (percent, "a", uses 85)
    ∷ (percent, "a", uses 97)
    ∷ (percent, "b", record { volume_size_bytes = pos 5; storage_limit_mb = none })
    ∷ (percent, "a", uses 98)
    ∷ (percent, "a", uses 20)
    ∷ []

samples-InRange : InRange samples
samples-InRange = limited _ _ _ 100 _ refl (omega arith) (
    limited _ _ _ 100 _ refl (omega arith) (
      no_limit _ _ _ _ refl
        (limited _ _ _ 100 _ refl (omega arith) (limited _ _ _ 100 _ refl (omega arith) nothing))))

new_subscriber-IsTold : IsTold new_subscriber
unfolding last_told
new_subscriber-IsTold = record { told = λ id. refl; changes = none_yet }

check_all-EndsTold_example : EndsTold (check_all samples new_subscriber)
check_all-EndsTold_example =
    check_all-EndsTold samples new_subscriber samples-InRange new_subscriber-IsTold
