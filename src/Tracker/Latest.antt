-- ===== src/Tracker/Latest.antt =====
-- What reaches the consumer of a worker's updates (worker/local/tracker.go).
use game_janitor.Base.{
  str_eq, if◌then◌else◌, ◌==◌, ℕ, ◌≤◌, ◌<◌, String, ◌≡◌, refl, sym, ap, ◌∙◌, subst, true, false,
  some, List, [], ◌∷◌, ◌++◌, ltb, lt→ltb, length, lookup, insert, lookup-insert, Bool-cases,
  Option-cases, inl, inr, arith, eq_refl,
}
use game_janitor.Model.{ℤ}
use game_janitor.Live.{
  InstanceState, state_created, state_running, state_exited, InstanceStateUpdate,
}
use game_janitor.Tracker.{
  InstanceTracker, TrackedInstance, capacity, snapshot_of, emit, change, with_state, set_state,
  set_ready, set_exited, set_installed, get_update,
}

emit-instances :
    (u : InstanceStateUpdate) (t : InstanceTracker) → (emit u t).instances ≡ t.instances
unfolding emit
emit-instances u t = elim (Bool-cases (ltb (length t.queue) capacity)) [
  | inl e ↦ rw e refl
  | inr e ↦ rw e refl
]

-- What a send does to the channel.
abbrev pub Sends : InstanceStateUpdate → InstanceTracker → InstanceTracker → Type 0
Sends u t after =
    (length t.queue < capacity → (after.queue ≡ t.queue ++ (u ∷ [])) × (after.sent ≡ u ∷ t.sent))
    × (capacity ≤ length t.queue
        → (after.queue ≡ t.queue) × (after.sent ≡ t.sent) × (after.dropped ≡ u ∷ t.dropped))

ge→ltb : (a b : ℕ) → b ≤ a → ltb a b ≡ false
ge→ltb a b le = ground arith

emit-Sends : (u : InstanceStateUpdate) (t : InstanceTracker) → Sends u t (emit u t)
unfolding emit
emit-Sends u t = (
  (λ room. rw (lt→ltb (length t.queue) capacity room) (refl, refl)),
  (λ full. rw (ge→ltb (length t.queue) capacity full) (refl, refl, refl)),
)

change-known :
    (id : String) (f : TrackedInstance → TrackedInstance) (i : TrackedInstance)
    (t : InstanceTracker)
    → lookup id t.instances ≡ some i
    → change id f t
      ≡ emit (snapshot_of (f i)) (record t { instances = insert id (f i) t.instances })
unfolding change
change-known id f i t found = rw (found, change) refl

lookup-inserted :
    (id : String) (i : TrackedInstance) (m : List (String × TrackedInstance))
    → lookup id (insert id i m) ≡ some i
lookup-inserted id i m = rw (lookup-insert id id i m) (rw eq_refl refl)

get_update-known :
    (id : String) (i : TrackedInstance) (t : InstanceTracker)
    → lookup id t.instances ≡ some i
    → get_update id t ≡ some (snapshot_of i)
unfolding get_update
get_update-known id i t e = rw (e, get_update) refl

-- The methods that change a tracked instance.
pub data Change : Type 0 where
  to_state : ℕ → InstanceState → Change
  to_ready : ℕ → Change
  to_exited : ℕ → ℤ → Change
  to_installed : Change

abbrev pub make : Change → String → InstanceTracker → InstanceTracker
make (to_state now state) id t = set_state now id state t
make (to_ready now) id t = set_ready now id t
make (to_exited now code) id t = set_exited now id code t
make to_installed id t = set_installed id t

-- What the controller is to see of an instance after a change, from what it saw before.
abbrev pub seen : Change → InstanceStateUpdate → InstanceStateUpdate
seen (to_state now state_created) u = record u { state = state_created }
seen (to_state now state_running) u = record u {
  state = state_running;
  started_at = if u.started_at == 0 then now else u.started_at;
}
seen (to_state now state_exited) u = record u { state = state_exited; exited_at = now }
seen (to_ready now) u = record u { ready = true; ready_at = now }
seen (to_exited now code) u = record u { state = state_exited; exit_code = code; exited_at = now }
seen to_installed u = record u { installed = true }

-- An instance becomes ready once.
abbrev pub IsNew : Change → InstanceStateUpdate → Type 0
IsNew (to_ready now) u = u.ready ≡ false
IsNew _ u = Unit {0}

-- Get answers the update for this instance, and for the others as before; the update is sent.
abbrev pub Tells : InstanceStateUpdate → String → InstanceTracker → InstanceTracker → Type 0
Tells u id t after =
    (get_update id after ≡ some u)
    × Sends u t after
    × ((other : String) → str_eq id other ≡ false → get_update other after ≡ get_update other t)

get_update-same :
    (other : String) (s t : InstanceTracker)
    → lookup other s.instances ≡ lookup other t.instances
    → get_update other s ≡ get_update other t
unfolding get_update
get_update-same other s t e = rw (get_update, e) refl

change-Tells :
    (id : String) (f : TrackedInstance → TrackedInstance) (i : TrackedInstance)
    (t : InstanceTracker)
    → lookup id t.instances ≡ some i
    → Tells (snapshot_of (f i)) id t (change id f t)
change-Tells id f i t found =
    let moved : InstanceTracker = record t { instances = insert id (f i) t.instances } in
    let u = snapshot_of (f i) in
    let kept = emit-instances u moved in
    subst (Tells u id t) (sym (change-known id f i t found)) (
      get_update-known id (f i) (emit u moved)
          (ap (lookup id) kept ∙ lookup-inserted id (f i) t.instances),
      emit-Sends u moved,
      λ other apart.
          get_update-same other (emit u moved) t
            (ap (lookup other) kept ∙ (lookup-insert id other (f i) t.instances ∙ rw apart refl)),
    )

-- What Get answers is a snapshot of the tracked instance.
get_update-tracked :
    (id : String) (u : InstanceStateUpdate) (t : InstanceTracker)
    → get_update id t ≡ some u
    → (i : TrackedInstance) × (lookup id t.instances ≡ some i) × (snapshot_of i ≡ u)
unfolding get_update
get_update-tracked id u t e = elim (Option-cases (lookup id t.instances)) [
  | inl f ↦ absurd (ground (arith, f, e))
  | inr (i, f) ↦ (i, f, ground (arith, f, e))
]

make-known :
    (c : Change) (id : String) (i : TrackedInstance) (t : InstanceTracker)
    → lookup id t.instances ≡ some i
    → IsNew c (snapshot_of i)
    → Tells (seen c (snapshot_of i)) id t (make c id t)
unfolding set_state set_ready set_exited set_installed with_state snapshot_of
make-known (to_state now state_created) id i t found new = change-Tells id _ i t found
make-known (to_state now state_running) id i t found new = change-Tells id _ i t found
make-known (to_state now state_exited) id i t found new = change-Tells id _ i t found
make-known (to_ready now) id i t found new =
    rw (found, set_ready) (rw new (change-Tells id _ i t found))
make-known (to_exited now code) id i t found new = change-Tells id _ i t found
make-known to_installed id i t found new = change-Tells id _ i t found

-- Right after SetState, SetReady on an instance that is not ready yet, SetExited or SetInstalled on a
-- tracked instance: Get answers what it answered before with the change made, it answers as before
-- for every other instance, and this answer is sent behind what waits in the channel where that has
-- room; where the channel holds 64 updates, it is lost, and the channel stays as it is.
pub make-Tells :
    (c : Change) (id : String) (u : InstanceStateUpdate) (t : InstanceTracker)
    → get_update id t ≡ some u
    → IsNew c u
    → Tells (seen c u) id t (make c id t)
make-Tells c id u t e new =
    let (i, found, same) = get_update-tracked id u t e in
    subst (λ v. Tells (seen c v) id t (make c id t)) same
      (make-known c id i t found (subst (IsNew c) (sym same) new))
