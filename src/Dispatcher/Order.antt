-- ===== src/Dispatcher/Order.antt =====
-- The order of the ranking (controller/cluster/dispatcher.go) is linear, up to ties: scores have a
-- positive denominator.
use native.Mathlib.Nat.{mul-le-mul_left, le_of_mul-le-mul_left}
use game_janitor.Base.{ℕ, ◌+◌, ◌*◌, ◌≤◌, ◌<◌, ◌≡◌, true, false, arith}
use game_janitor.Dispatcher.{Score, above, PlacementCandidate, before}

-- Fractions (p - m) / o are compared without subtraction; the comparison is transitive.
fraction_trans :
    (ap am ao bp bm bo cp cm co : ℕ)
    → 0 < bo
    → bp * ao + am * bo ≤ ap * bo + bm * ao
    → cp * bo + bm * co ≤ bp * co + cm * bo
    → cp * ao + am * co ≤ ap * co + cm * ao
fraction_trans ap am ao bp bm bo cp cm co pos h k =
    le_of_mul-le-mul_left {k = bo} (grind (arith, mul-le-mul_left co h, mul-le-mul_left ao k)) pos

-- Neither is above the other way round.
AtLeast : Score → Score → Type 0
AtLeast a b = b.plus * a.over + a.minus * b.over ≤ a.plus * b.over + b.minus * a.over

above-AtLeast : (a b : Score) → above b a ≡ false → AtLeast a b
unfolding above AtLeast
above-AtLeast a b e = ground arith

AtLeast-above : (a b : Score) → AtLeast a b → above b a ≡ false
unfolding above AtLeast
AtLeast-above a b h = ground arith

AtLeast-trans : (a b c : Score) → 0 < b.over → AtLeast a b → AtLeast b c → AtLeast a c
unfolding AtLeast
AtLeast-trans a b c pos h k =
    fraction_trans a.plus a.minus a.over b.plus b.minus b.over c.plus c.minus c.over pos h k

above_trans :
    (a b c : Score) → 0 < b.over → above b a ≡ false → above c b ≡ false → above c a ≡ false
above_trans a b c pos h k =
    AtLeast-above a c (AtLeast-trans a b c pos (above-AtLeast a b h) (above-AtLeast b c k))

above-asym : (a b : Score) → above a b ≡ true → above b a ≡ false
unfolding above
above-asym a b e = ground arith

-- `a` may stand before `b`: `b` does not go before it.
abbrev pub Precedes : PlacementCandidate → PlacementCandidate → Type 0
Precedes a b = before b a ≡ false

abbrev pub IsScored : PlacementCandidate → Type 0
IsScored c = 0 < c.score.over

pub Precedes-asym : (a b : PlacementCandidate) → before a b ≡ true → Precedes a b
unfolding before
Precedes-asym a b e = ground (arith, above-asym a.score b.score, above-asym b.score a.score)

pub Precedes-trans :
    (a b c : PlacementCandidate)
    → IsScored a
    → IsScored b
    → IsScored c
    → Precedes a b
    → Precedes b c
    → Precedes a c
unfolding before
Precedes-trans a b c pa pb pc h k = ground (
  arith,
  above_trans a.score b.score c.score pb,
  above_trans b.score c.score a.score pc,
  above_trans c.score a.score b.score pa,
)
