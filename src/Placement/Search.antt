-- ===== src/Placement/Search.antt =====
-- The search of AllocatePorts (controller/cluster/placement.go) for a block of free ports.
use game_janitor.Base.{
  ℕ, zero, suc, ◌+◌, ◌-◌, ◌≤◌, ◌<◌, ◌≡◌, inl, inr, true, false, List, Option, none, some, arith,
  leb, ◌==◌, if◌then◌else◌, elem, Bool-cases, Option-cases,
}

-- The inner loop: the offset of the first used port among `left` ports from `candidate + offset`.
unfoldable pub first_used : List ℕ → ℕ → ℕ → ℕ → Option ℕ
first_used used candidate offset zero = none
first_used used candidate offset (suc left) =
    let rest = first_used used candidate (offset + 1) left in
    if elem (candidate + offset) used then some offset else rest

pub data Found : Type 0 where
  base : ℕ → Found
  exhausted : Found
  out_of_fuel : Found

-- The outer loop. After a used port at `offset` the next candidate is the port behind it.
unfoldable pub find_base : ℕ → List ℕ → ℕ → ℕ → ℕ → Found
find_base zero used block_size range_end candidate = out_of_fuel
find_base (suc fuel) used block_size range_end candidate =
    elim (leb (candidate + block_size - 1) range_end) [
      | true ↦ elim (first_used used candidate 0 block_size) [
        | none ↦ base candidate
        | some offset ↦ find_base fuel used block_size range_end (candidate + offset + 1)
      ]
      | false ↦ exhausted
    ]

-- No port of the block is in use.
abbrev pub IsFree : List ℕ → ℕ → ℕ → Type 0
IsFree used candidate block_size = (i : ℕ) → i < block_size → elem (candidate + i) used ≡ false

first_used-none :
    (used : List ℕ) (candidate offset left : ℕ)
    → first_used used candidate offset left ≡ none
    → (i : ℕ) → offset ≤ i
    → i < offset + left
    → elem (candidate + i) used ≡ false
unfolding first_used
first_used-none used candidate offset zero e i lo hi = absurd (omega arith)
first_used-none used candidate offset (suc left) e i lo hi =
    elim (Bool-cases (elem (candidate + offset) used)) [
      | inl taken ↦ cc (rw taken at e)
      | inr free ↦ elim (Bool-cases (i == offset)) [
        | inl same ↦ ground arith
        | inr other ↦
            first_used-none used candidate (offset + 1) left (rw free at e) i (ground arith)
              (omega arith)
      ]
    ]

first_used-some :
    (used : List ℕ) (candidate offset left o : ℕ)
    → first_used used candidate offset left ≡ some o
    → (elem (candidate + o) used ≡ true) × (offset ≤ o) × (o < offset + left)
unfolding first_used
first_used-some used candidate offset zero o e = cc
first_used-some used candidate offset (suc left) o e =
    ground (arith, first_used-some used candidate (offset + 1) left o)

-- The base that is found heads the first free block of the range; where none is found there is
-- no free block.
abbrev pub Answers : List ℕ → ℕ → ℕ → ℕ → Found → Type 0
Answers used block_size range_end start (base b) =
    (start ≤ b)
    × (b + block_size ≤ range_end + 1)
    × IsFree used b block_size
    × ((c : ℕ) → start ≤ c → c < b → ¬ IsFree used c block_size)
Answers used block_size range_end start exhausted =
    (c : ℕ) → start ≤ c → c + block_size ≤ range_end + 1 → ¬ IsFree used c block_size
Answers used block_size range_end start out_of_fuel = ⊥

-- Every candidate up to a used port at `offset` has that port in its block.
skipped :
    (used : List ℕ) (block_size candidate offset c : ℕ)
    → elem (candidate + offset) used ≡ true
    → offset < block_size
    → candidate ≤ c
    → c < candidate + offset + 1
    → ¬ IsFree used c block_size
skipped used block_size candidate offset c taken small lo hi free =
    let e : c + (candidate + offset - c) ≡ candidate + offset = omega arith in
    let clear : elem (candidate + offset) used ≡ false =
      rw e at (free (candidate + offset - c) (omega arith)) in
    cc

Answers-later :
    (used : List ℕ) (block_size range_end candidate offset : ℕ) (r : Found)
    → elem (candidate + offset) used ≡ true
    → offset < block_size
    → Answers used block_size range_end (candidate + offset + 1) r
    → Answers used block_size range_end candidate r
Answers-later used block_size range_end candidate offset (base b) taken small
      (lo, fit, free, first) =
    (
      omega arith,
      fit,
      free,
      λ c p q. elim (Bool-cases (leb c (candidate + offset))) [
        | inl near ↦ skipped used block_size candidate offset c taken small p (ground arith)
        | inr far ↦ first c (ground arith) q
      ],
    )
Answers-later used block_size range_end candidate offset exhausted taken small h = λ c p q.
    elim (Bool-cases (leb c (candidate + offset))) [
      | inl near ↦ skipped used block_size candidate offset c taken small p (ground arith)
      | inr far ↦ h c (ground arith) q
    ]
Answers-later used block_size range_end candidate offset out_of_fuel taken small h = h

-- With fuel for every candidate left, the search answers rightly, and so ends.
pub find_base-Answers :
    (fuel : ℕ) (used : List ℕ) (block_size range_end candidate : ℕ)
    → 0 < block_size
    → range_end + 1 - candidate < fuel
    → Answers used block_size range_end candidate
        (find_base fuel used block_size range_end candidate)
unfolding find_base
find_base-Answers zero used block_size range_end candidate pos h = absurd (omega arith)
find_base-Answers (suc fuel) used block_size range_end candidate pos h =
    elim (Bool-cases (leb (candidate + block_size - 1) range_end)) [
      | inr over ↦ rw (over, find_base) (λ c p q _. ground arith)
      | inl fits ↦ elim (Option-cases (first_used used candidate 0 block_size)) [
        | inl e ↦
            rw (fits, find_base)
              (rw (e, find_base)
                (
                  omega arith,
                  ground arith,
                  λ i hi.
                      first_used-none used candidate 0 block_size e i (omega arith) (omega arith),
                  λ c p q _. omega arith,
                ))
        | inr (o, e) ↦
            let (taken, _, small) = first_used-some used candidate 0 block_size o e in
            rw (fits, find_base)
              (rw (e, find_base)
                (Answers-later used block_size range_end candidate o _ taken (omega arith) (
                  find_base-Answers fuel used block_size range_end (candidate + o + 1) pos
                    (ground arith))))
      ]
    ]
