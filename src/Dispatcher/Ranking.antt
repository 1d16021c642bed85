-- ===== src/Dispatcher/Ranking.antt =====
-- The ranking of the workers (RankWorkersForPlacement of controller/cluster/dispatcher.go).
use mathlib.Core.List.{Perm}
use mathlib.Core.List.Perm
use game_janitor.Base.{
  ℕ, ◌<◌, String, ◌≡◌, refl, true, false, ◌&&◌, not, Option, none, some, List, [], ◌∷◌, map, All,
  Bool-cases, Option-cases, inl, inr, arith, is_some, str_elem, str_eq, eq_iff, subst, sym, ltb,
  ltb→lt, or_else,
}
use game_janitor.Model.{Labels, WorkerNode}
use game_janitor.Store.{Store, get_worker_node, gameserver_count_by_node}
use game_janitor.Registry.{Registry, RegisteredWorker}
use game_janitor.Dispatcher.{
  Score, PlacementCandidate, Allocated, before, insert_ranked, sort_ranked, candidates, candidate,
  candidate_with, allocated_on, score_of, headroom, least, unlimited, has_labels, is_cordoned,
  rank_workers_for_placement, above,
}
use game_janitor.Dispatcher.Order.{Precedes, IsScored, Precedes-asym, Precedes-trans}

-- Each candidate may stand before all later ones.
pub IsRanked : List PlacementCandidate → Type 0
IsRanked [] = Unit
IsRanked (c ∷ cs) = All (Precedes c) cs × IsRanked cs

insert_ranked-All :
    (P : PlacementCandidate → Type 0) (c : PlacementCandidate) (ds : List PlacementCandidate)
    → P c
    → All P ds
    → All P (insert_ranked c ds)
unfolding insert_ranked
insert_ranked-All P c [] p h = (p, tt)
insert_ranked-All P c (d ∷ ds) p (q, h) = elim (Bool-cases (before d c)) [
  | inl e ↦ rw e (q, insert_ranked-All P c ds p h)
  | inr e ↦ rw e (p, (q, h))
]

Precedes-All :
    (c d : PlacementCandidate) (ds : List PlacementCandidate)
    → IsScored c
    → IsScored d
    → All IsScored ds
    → Precedes c d
    → All (Precedes d) ds
    → All (Precedes c) ds
Precedes-All c d [] pc pd scored first later = tt
Precedes-All c d (e ∷ es) pc pd (pe, scored) first (next, later) =
    (Precedes-trans c d e pc pd pe first next, Precedes-All c d es pc pd scored first later)

insert_ranked-IsRanked :
    (c : PlacementCandidate) (ds : List PlacementCandidate)
    → IsScored c
    → All IsScored ds
    → IsRanked ds
    → IsRanked (insert_ranked c ds)
unfolding insert_ranked IsRanked
insert_ranked-IsRanked c [] pc scored h = (tt, tt)
insert_ranked-IsRanked c (d ∷ ds) pc (pd, scored) (below, h) = elim (Bool-cases (before d c)) [
  | inl e ↦ rw e (
    insert_ranked-All (Precedes d) c ds (Precedes-asym d c e) below,
    insert_ranked-IsRanked c ds pc scored h,
  )
  | inr e ↦ rw e ((e, Precedes-All c d ds pc pd scored e below), (below, h))
]

insert_ranked-Perm :
    (c : PlacementCandidate) (ds : List PlacementCandidate) → Perm (insert_ranked c ds) (c ∷ ds)
unfolding insert_ranked
insert_ranked-Perm c [] = Perm.rfl
insert_ranked-Perm c (d ∷ ds) = elim (Bool-cases (before d c)) [
  | inl e ↦ rw e (Perm.trans (Perm.cons d (insert_ranked-Perm c ds)) (Perm.swap c d ds))
  | inr e ↦ rw e Perm.rfl
]

sort_ranked-All :
    (P : PlacementCandidate → Type 0) (cs : List PlacementCandidate)
    → All P cs
    → All P (sort_ranked cs)
unfolding sort_ranked
sort_ranked-All P [] h = tt
sort_ranked-All P (c ∷ cs) (p, h) =
    insert_ranked-All P c (sort_ranked cs) p (sort_ranked-All P cs h)

sort_ranked-IsRanked : (cs : List PlacementCandidate) → All IsScored cs → IsRanked (sort_ranked cs)
unfolding sort_ranked IsRanked
sort_ranked-IsRanked [] scored = tt
sort_ranked-IsRanked (c ∷ cs) (p, scored) =
    insert_ranked-IsRanked c (sort_ranked cs) p (sort_ranked-All IsScored cs scored)
      (sort_ranked-IsRanked cs scored)

sort_ranked-Perm : (cs : List PlacementCandidate) → Perm (sort_ranked cs) cs
unfolding sort_ranked
sort_ranked-Perm [] = Perm.rfl
sort_ranked-Perm (c ∷ cs) =
    Perm.trans (insert_ranked-Perm c (sort_ranked cs)) (Perm.cons c (sort_ranked-Perm cs))

-- Scores have a positive denominator.
IsPositive : Option Score → Type 0
IsPositive none = Unit
IsPositive (some s) = 0 < s.over

headroom-IsPositive : (limit : Option ℕ) (allocated : ℕ) → IsPositive (headroom limit allocated)
unfolding headroom IsPositive
headroom-IsPositive none allocated = tt
headroom-IsPositive (some limit) allocated = elim (Bool-cases (ltb 0 limit)) [
  | inl e ↦ rw e (ltb→lt 0 limit e)
  | inr e ↦ rw e tt
]

least-IsPositive : (a b : Option Score) → IsPositive a → IsPositive b → IsPositive (least a b)
unfolding least IsPositive
least-IsPositive none b p q = q
least-IsPositive (some a) none p q = p
least-IsPositive (some a) (some b) p q = elim (Bool-cases (above a b)) [
  | inl e ↦ rw e q
  | inr e ↦ rw e p
]

or_else-IsPositive :
    (o : Option Score) (allocated : ℕ) → IsPositive o → 0 < (or_else o (unlimited allocated)).over
unfolding IsPositive unlimited
or_else-IsPositive none allocated p = omega arith
or_else-IsPositive (some s) allocated p = p

score_of-over : (node : Option WorkerNode) (sums : Allocated) → 0 < (score_of node sums).over
unfolding score_of unlimited
score_of-over none (mem, cpus, disk) = omega arith
score_of-over (some node) (mem, cpus, disk) = or_else-IsPositive _ mem (
    least-IsPositive _ _
      (least-IsPositive _ _ (headroom-IsPositive node.max_memory_mb mem)
        (headroom-IsPositive node.max_cpu cpus))
      (headroom-IsPositive node.max_storage_mb disk))

-- A worker that may be chosen: it has the labels and is not cordoned.
abbrev pub IsEligible : Store → Labels → String → Type 0
IsEligible s required id =
    (has_labels required (get_worker_node s id) ≡ true)
    × (is_cordoned (get_worker_node s id) ≡ false)

-- A candidate is scored and eligible.
abbrev IsFit : Store → Labels → PlacementCandidate → Type 0
IsFit s required c = IsScored c × IsEligible s required c.node_id

candidate_with-IsScored :
    (s : Store) (id : String) (sums : Option Allocated) (c : PlacementCandidate)
    → candidate_with s id sums ≡ some c
    → (c.node_id ≡ id) × IsScored c
unfolding candidate_with
candidate_with-IsScored s id none c e = absurd cc
candidate_with-IsScored s id (some sums) c e =
    let made : PlacementCandidate = record {
      node_id = id;
      score = score_of (get_worker_node s id) sums;
      gameserver_count = or_else (gameserver_count_by_node s id) 0;
    } in
    let same : made ≡ c = cc in
    subst (λ x. (x.node_id ≡ id) × IsScored x) same
      (refl, score_of-over (get_worker_node s id) sums)

candidate-IsFit :
    (s : Store) (required : Labels) (id : String) (c : PlacementCandidate)
    → candidate s required id ≡ some c
    → IsFit s required c
unfolding candidate
candidate-IsFit s required id c e =
    let node = get_worker_node s id in
    elim (Bool-cases (has_labels required node && not (is_cordoned node))) [
      | inr f ↦ absurd (ground (arith, f, e))
      | inl f ↦
          let (named, scored) =
            candidate_with-IsScored s id (allocated_on s id) c (rw (f, candidate) at e) in
          (scored, subst (IsEligible s required) (sym named) (ground (arith, f), ground (arith, f)))
    ]

candidates-IsFit :
    (s : Store) (required : Labels) (workers : List (String × RegisteredWorker))
    → All (IsFit s required) (candidates s required workers)
unfolding candidates
candidates-IsFit s required [] = tt
candidates-IsFit s required ((id, rw') ∷ rest) =
    let later = candidates-IsFit s required rest in
    elim (Bool-cases (is_some rw'.worker)) [
      | inr e ↦ rw e later
      | inl e ↦ rw e (elim (Option-cases (candidate s required id)) [
        | inl f ↦ rw (f, candidates) later
        | inr (c, f) ↦ rw (f, candidates) (candidate-IsFit s required id c f, later)
      ])
    ]

fit-IsScored :
    (s : Store) (required : Labels) (cs : List PlacementCandidate)
    → All (IsFit s required) cs
    → All IsScored cs
fit-IsScored s required [] h = tt
fit-IsScored s required (c ∷ cs) ((scored, _), h) = (scored, fit-IsScored s required cs h)

fit-IsEligible :
    (s : Store) (required : Labels) (cs : List PlacementCandidate)
    → All (IsFit s required) cs
    → All (λ c. IsEligible s required c.node_id) cs
fit-IsEligible s required [] h = tt
fit-IsEligible s required (c ∷ cs) ((_, eligible), h) = (eligible, fit-IsEligible s required cs h)

pub rank_workers-IsRanked :
    (s : Store) (r : Registry) (required : Labels)
    → let ranking = rank_workers_for_placement s r required in
      Perm ranking (candidates s required r.workers)
      × IsRanked ranking
      × All (λ c. IsEligible s required c.node_id) ranking
unfolding rank_workers_for_placement
rank_workers-IsRanked s r required =
    let found = candidates s required r.workers in
    let fit = candidates-IsFit s required r.workers in
    (
      sort_ranked-Perm found,
      sort_ranked-IsRanked found (fit-IsScored s required found fit),
      fit-IsEligible s required (sort_ranked found) (sort_ranked-All (IsFit s required) found fit),
    )

-- A listed node is eligible.
pub ranked-IsEligible :
    (s : Store) (required : Labels) (id : String) (cs : List PlacementCandidate)
    → All (λ c. IsEligible s required c.node_id) cs
    → str_elem id (map (λ c. c.node_id) cs) ≡ true
    → IsEligible s required id
ranked-IsEligible s required id [] h e = absurd cc
ranked-IsEligible s required id (c ∷ cs) (p, h) e = elim (Bool-cases (str_eq c.node_id id)) [
  | inl same ↦ subst (IsEligible s required) ((eq_iff c.node_id id).0 same) p
  | inr other ↦ ranked-IsEligible s required id cs h (rw other at e)
]
