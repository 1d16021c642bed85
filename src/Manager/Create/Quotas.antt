-- ===== src/Manager/Create/Quotas.antt =====
-- Quotas hold (enforceQuotas of controller/gameserver/manager.go): what a user's token owns after a
-- gameserver was created fits its limits.
use game_janitor.Base.{
  ℕ, suc, ◌+◌, ◌≤◌, ◌<◌, ◌≡◌, refl, sym, ap, ◌∙◌, subst, true, Option, none, some, List, ◌∷◌, keep,
  length, Bool-cases, Option-cases, inl, inr, arith, or_else, eq_refl, lookup,
}
use game_janitor.Model.{Gameserver}
use game_janitor.Store.{
  Store, int_limit, sum_column, memory_column, cpu_column, storage_column, made_by,
  count_gameservers_by_token, sum_resources_by_token, token_count_query,
}
use game_janitor.Games.{Game}
use game_janitor.Access.{Token}
use game_janitor.Placement.{Resource, memory, cpu, storage, exceeds}
use game_janitor.Placement.Capacity.{over_limit-int}
use game_janitor.Manager.{Manager}
use game_janitor.Manager.Request.{
  Request, passed, Quota, validate_create, memory_quota, cpu_quota, storage_quota,
}
use game_janitor.Manager.Request.Laws.{and_then-passed}
use game_janitor.Manager.Create.{
  Answers, draft, prepare, create, enforce_quotas, count_quota, resource_quotas, within, quotas_of,
  is_user_role,
}
use game_janitor.Manager.Create.Outcome.{create-AllOrNothing, OutcomeOf, HasCreated}
use game_janitor.Manager.Create.Succeeded.{create-Succeeds, Succeeds-draft}

-- A total that a limit allows, where there is one.
abbrev pub IsWithin : Option ℕ → ℕ → Type 0
IsWithin none total = Unit
IsWithin (some most) total = total ≤ most

-- The rows that a token owns.
abbrev pub owned : Store → Token → List Gameserver
owned s t = keep (made_by t.id) s.gameservers

-- Whether a sum is read as it is.
abbrev Reads : Resource → ℕ → Type 0
Reads memory total = total < int_limit
Reads cpu total = Unit
Reads storage total = total < int_limit

within-IsWithin :
    (resource : Resource) (limit : Option ℕ) (used wanted : ℕ) (q : Quota)
    → Reads resource (wanted + used)
    → within resource limit used wanted q ≡ passed tt
    → IsWithin limit (wanted + used)
unfolding within exceeds
within-IsWithin resource none used wanted q small e = tt
within-IsWithin memory (some most) used wanted q small e =
    let sum = over_limit-int (used + wanted) most (omega (arith, small)) in ground (arith, sum)
within-IsWithin cpu (some most) used wanted q small e = ground arith
within-IsWithin storage (some most) used wanted q small e =
    let sum = over_limit-int (used + wanted) most (omega (arith, small)) in ground (arith, sum)

count_quota-IsWithin :
    (s : Store) (t : Token)
    → count_quota s t ≡ passed tt
    → IsWithin t.max_gameservers (suc (length (owned s t)))
unfolding count_quota count_gameservers_by_token
count_quota-IsWithin s t e = elim (Option-cases t.max_gameservers) [
  | inl f ↦ rw f tt
  | inr (most, f) ↦ rw f (elim (Bool-cases (s.fails token_count_query)) [
    | inl g ↦ absurd (ground (arith, rw (g, count_quota) at (rw (f, count_quota) at e)))
    | inr g ↦ ground (arith, rw (g, count_quota) at (rw (f, count_quota) at e))
  ])
]

sum_resources_by_token-sums :
    (s : Store) (t : Token) (mem cpus disk : ℕ)
    → sum_resources_by_token s t.id ≡ some (mem, cpus, disk)
    → (sum_column memory_column (owned s t) ≡ mem)
      × (sum_column cpu_column (owned s t) ≡ cpus)
      × (sum_column storage_column (owned s t) ≡ disk)
unfolding sum_resources_by_token
sum_resources_by_token-sums s t mem cpus disk e = ground arith

-- What a token owns fits its quotas.
abbrev pub FitsQuotas : Token → List Gameserver → Type 0
FitsQuotas t rows =
    IsWithin t.max_gameservers (length rows)
    × IsWithin t.max_memory_mb (sum_column memory_column rows)
    × IsWithin t.max_cpu (sum_column cpu_column rows)
    × IsWithin t.max_storage_mb (sum_column storage_column rows)

enforce_quotas-FitsQuotas :
    (s : Store) (t : Token) (gs : Gameserver)
    → sum_column memory_column (gs ∷ owned s t) < int_limit
    → sum_column storage_column (gs ∷ owned s t) < int_limit
    → enforce_quotas s t gs ≡ passed tt
    → FitsQuotas t (gs ∷ owned s t)
unfolding enforce_quotas resource_quotas sum_column
enforce_quotas-FitsQuotas s t gs small_mem small_disk e =
    let (_, counted, e1) = and_then-passed (count_quota s t) _ tt e in
    elim (Option-cases (sum_resources_by_token s t.id)) [
      | inl f ↦ absurd (ground (arith, f, e1))
      | inr ((mem, cpus, disk), f) ↦
          let (mem_is, cpu_is, disk_is) = sum_resources_by_token-sums s t mem cpus disk f in
          let e2 = rw (f, enforce_quotas) at e1 in
          let (_, e3, e4) =
            and_then-passed (within memory t.max_memory_mb mem gs.memory_limit_mb memory_quota) _ tt
              e2 in
          let (_, e5, e6) =
            and_then-passed (within cpu t.max_cpu cpus gs.cpu_limit cpu_quota) _ tt e4 in
          (
            count_quota-IsWithin s t counted,
            rw mem_is (
                within-IsWithin memory t.max_memory_mb mem gs.memory_limit_mb memory_quota
                  (rw mem_is at small_mem) e3),
            rw cpu_is (within-IsWithin cpu t.max_cpu cpus gs.cpu_limit cpu_quota tt e5),
            rw disk_is (
                within-IsWithin storage t.max_storage_mb disk (or_else gs.storage_limit_mb 0)
                  storage_quota (rw disk_is at small_disk) e6),
          )
    ]

prepare-quotas :
    (a : Answers) (t : Token) (r : Request) (s : Store) (game : Game)
    → is_user_role t.role ≡ true
    → prepare a (some t) r s ≡ passed game
    → enforce_quotas s t (draft a (some t) r) ≡ passed tt
unfolding prepare quotas_of
prepare-quotas a t r s game user e =
    let gs = draft a (some t) r in
    let (_, _, e1) = and_then-passed (validate_create r) _ game e in
    let (_, checked, _) = and_then-passed (quotas_of s (some t) gs) _ game e1 in rw user at checked

-- After a user's token created a gameserver, what it owns in the database, the new gameserver
-- included, fits its quotas: the number of gameservers, and the sums of their memory, CPU and
-- storage limits, where the sums of memory and storage stay below 2 ^ 63 and no ports were pending under the new id.
pub create-FitsQuotas :
    (a : Answers) (t : Token) (r : Request) (m : Manager) (gs : Gameserver)
    → lookup a.id m.placement.pending_ports ≡ none
    → is_user_role t.role ≡ true
    → sum_column memory_column (gs ∷ owned m.placement.store t) < int_limit
    → sum_column storage_column (gs ∷ owned m.placement.store t) < int_limit
    → (create a (some t) r m).outcome ≡ passed gs
    → FitsQuotas t (owned (create a (some t) r m).manager.placement.store t)
unfolding sum_column draft
create-FitsQuotas a t r m gs fresh user small_mem small_disk e =
    let s = m.placement.store in
    let done = create-Succeeds a (some t) r m gs e in
    let same = Succeeds-draft a (some t) r m gs done in
    let mine : made_by t.id gs ≡ true = ap (made_by t.id) (sym same) ∙ eq_refl t.id in
    let fits =
      enforce_quotas-FitsQuotas s t (draft a (some t) r)
        (subst (λ x. sum_column memory_column (x ∷ owned s t) < int_limit) (sym same) small_mem)
        (subst (λ x. sum_column storage_column (x ∷ owned s t) < int_limit) (sym same) small_disk)
        (prepare-quotas a t r s done.game user done.prepared) in
    let (_, stored, _, _) : HasCreated a.id m gs (create a (some t) r m) =
      subst (λ o. OutcomeOf o a.id m (create a (some t) r m)) e
        (create-AllOrNothing a (some t) r m fresh) in
    let now_owned : gs ∷ owned s t ≡ owned (create a (some t) r m).manager.placement.store t =
      sym (ap (λ x. owned x t) stored ∙ rw mine refl) in
    subst (FitsQuotas t) now_owned (subst (λ x. FitsQuotas t (x ∷ owned s t)) same fits)
