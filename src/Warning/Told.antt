-- ===== src/Warning/Told.antt =====
-- What a listener on the bus knows of the warnings (controller/warning/warning.go).
use game_janitor.Base.{
  ℕ, zero, suc, ◌*◌, ◌^◌, ◌<◌, String, ◌≡◌, refl, ap, ◌∙◌, false, Option, none, some, List, [], ◌∷◌,
  if◌then◌else◌, leb, str_eq, arith, Bool-cases, inl, inr,
}
use game_janitor.Model.{ℤ, pos, negsuc}
use game_janitor.Warning.{
  Level, StorageWarning, Subscriber, Stats, Thresholds, int64, product, quotient, same_level,
  set_level, check_limit, check_storage, check_all,
}

-- The level of the last warning about a gameserver.
unfoldable pub last_told : String → List StorageWarning → Option Level
last_told id [] = none
last_told id (e ∷ es) =
    let older = last_told id es in if str_eq e.gameserver_id id then e.level else older

-- Each warning changes what was told of its gameserver before.
pub data Changes : List StorageWarning → Type 0 where
  none_yet : Changes []
  change :
      (e : StorageWarning) (es : List StorageWarning)
      → same_level e.level (last_told e.gameserver_id es) ≡ false
      → Changes es
      → Changes (e ∷ es)

-- What was told is what is active, and nothing is told twice.
pub record IsTold (w : Subscriber) : Type 0 where
  pub told : (id : String) → last_told id w.published ≡ w.active id
  pub changes : Changes w.published

set_level-IsTold : (e : StorageWarning) (w : Subscriber) → IsTold w → IsTold (set_level e w)
unfolding set_level last_told
set_level-IsTold e w h = elim (Bool-cases (same_level e.level (w.active e.gameserver_id))) [
  | inl same ↦ rw same h
  | inr other ↦ rw other (record {
    told = λ id. elim (Bool-cases (str_eq e.gameserver_id id)) [
      | inl f ↦ rw f refl
      | inr f ↦ rw f (h.told id)
    ];
    changes =
        change e w.published (ap (same_level e.level) (h.told e.gameserver_id) ∙ other) h.changes;
  })
]

-- The limits of a history are below 2 ^ 43 MB: in bytes they are an int64.
pub data InRange : List (Thresholds × String × Stats) → Type 0 where
  nothing : InRange []
  no_limit :
      (t : Thresholds) (id : String) (stats : Stats) (later : List (Thresholds × String × Stats))
      → stats.storage_limit_mb ≡ none
      → InRange later
      → InRange ((t, id, stats) ∷ later)
  limited :
      (t : Thresholds) (id : String) (stats : Stats) (limit : ℕ)
      (later : List (Thresholds × String × Stats))
      → stats.storage_limit_mb ≡ some (pos limit)
      → limit < 2 ^ 43
      → InRange later
      → InRange ((t, id, stats) ∷ later)

quotient-above : (a : ℤ) (b : ℕ) → 0 < b → (q : ℤ) × (quotient a (pos b) ≡ some q)
unfolding quotient
quotient-above a zero h = ground (arith, h)
quotient-above (pos a) (suc b) h = (_, refl)
quotient-above (negsuc a) (suc b) h = (_, refl)

product-limit : (limit : ℕ) → limit < 2 ^ 43 → product (pos limit) 1048576 ≡ pos (limit * 1048576)
unfolding product int64
product-limit limit h = ground (arith, h)

-- A check that does not panic leaves what `IsTold` says.
unfoldable pub EndsTold : Option Subscriber → Type 0
EndsTold result = (w : Subscriber) × (result ≡ some w) × IsTold w

check_limit-EndsTold :
    (t : Thresholds) (id : String) (size : ℤ) (limit : ℕ) (w : Subscriber)
    → 0 < limit
    → limit < 2 ^ 43
    → IsTold w
    → EndsTold (check_limit t id size (pos limit) w)
unfolding check_limit EndsTold
check_limit-EndsTold t id size limit w above below h =
    let (pct, p) = quotient-above (product size 100) (limit * 1048576) (omega (arith, above)) in
    let (used, u) = quotient-above size 1048576 (omega arith) in
    rw (check_limit, product-limit limit below, p, u) (_, refl, set_level-IsTold _ w h)

check_storage-none :
    (t : Thresholds) (id : String) (stats : Stats) (w : Subscriber)
    → stats.storage_limit_mb ≡ none
    → check_storage t id stats w ≡ some w
unfolding check_storage
check_storage-none t id stats w e = rw (e, check_storage) refl

check_storage-some :
    (t : Thresholds) (id : String) (stats : Stats) (limit : ℕ) (w : Subscriber)
    → stats.storage_limit_mb ≡ some (pos limit)
    → check_storage t id stats w
      ≡ (if leb limit 0 then some w else check_limit t id stats.volume_size_bytes (pos limit) w)
unfolding check_storage
check_storage-some t id stats limit w e = rw (e, check_storage) refl

check_storage-EndsTold :
    (t : Thresholds) (id : String) (stats : Stats) (limit : ℕ) (w : Subscriber)
    → stats.storage_limit_mb ≡ some (pos limit)
    → limit < 2 ^ 43
    → IsTold w
    → (next : Subscriber) × (check_storage t id stats w ≡ some next) × IsTold next
unfolding EndsTold
check_storage-EndsTold t id stats limit w e below h = elim (Bool-cases (leb limit 0)) [
  | inl f ↦ (w, check_storage-some t id stats limit w e ∙ rw f refl, h)
  | inr f ↦
      let (next, same, told) =
        check_limit-EndsTold t id stats.volume_size_bytes limit w (ground (arith, f)) below h in
      (next, check_storage-some t id stats limit w e ∙ (rw f same), told)
]

-- For stats whose storage limits are none or from 0 to below 2 ^ 43 MB, and a subscriber whose active
-- warnings are those that it last published, none of them a repetition: the checks of all the stats
-- end without a panic, and this is so afterwards. For every gameserver, what was last published is the
-- warning that is active, or that it is resolved where none is, and each publication changes what was
-- published of its gameserver before.
pub check_all-EndsTold :
    (samples : List (Thresholds × String × Stats)) (w : Subscriber)
    → InRange samples
    → IsTold w
    → EndsTold (check_all samples w)
unfolding check_all EndsTold
check_all-EndsTold [] w nothing h = (w, refl, h)
check_all-EndsTold ((t, id, stats) ∷ later) w (no_limit _ _ _ _ e rest) h =
    rw (check_all, check_storage-none t id stats w e) (check_all-EndsTold later w rest h)
check_all-EndsTold ((t, id, stats) ∷ later) w (limited _ _ _ limit _ e below rest) h =
    let (next, same, told) = check_storage-EndsTold t id stats limit w e below h in
    rw (check_all, same) (check_all-EndsTold later next rest told)
