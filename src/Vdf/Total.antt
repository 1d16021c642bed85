-- ===== src/Vdf/Total.antt =====
-- The parser of binary KeyValues (steam/vdf.go) always ends: each step reads a byte.
use game_janitor.Base.{
  ℕ, zero, suc, ◌+◌, ◌*◌, ◌≤◌, ◌<◌, ◌≢◌, ◌||◌, List, [], ◌∷◌, ◌==◌, length, Bool-cases, inl, inr,
  arith, subst,
}
use game_janitor.Vdf.{
  Value, Nodes, Parsed, parsed, failed, out_of_fuel, and_then, read_c_string, read_uint, read_value,
  read_node, parse_children, parse_binary_vdf, signed_value, number, float, text,
}

-- A parser ends, and leaves at most `n` bytes.
abbrev pub Leaves {ℓ} : {A : Type ℓ} → ℕ → Parsed A → Type 0
Leaves n (parsed a rest) = length rest ≤ n
Leaves n (failed e) = Unit
Leaves n out_of_fuel = ⊥

and_then-Leaves {ℓ κ} :
    {A : Type ℓ} {B : Type κ} (n k : ℕ) (p : Parsed A) (next : A → List ℕ → Parsed B)
    → Leaves k p
    → ((a : A) (rest : List ℕ) → length rest ≤ k → Leaves n (next a rest))
    → Leaves n (and_then p next)
and_then-Leaves n k (parsed a rest) next h step = step a rest h
and_then-Leaves n k (failed e) next h step = tt
and_then-Leaves n k out_of_fuel next h step = h

Leaves-le {ℓ} : {A : Type ℓ} (n k : ℕ) (p : Parsed A) → k ≤ n → Leaves k p → Leaves n p
Leaves-le n k (parsed a rest) le h = omega (arith, le, h)
Leaves-le n k (failed e) le h = tt
Leaves-le n k out_of_fuel le h = h

read_c_string-Leaves : (bs : List ℕ) → Leaves (length bs) (read_c_string bs)
unfolding read_c_string
read_c_string-Leaves [] = tt
read_c_string-Leaves (b ∷ bs) = elim (Bool-cases (b == 0)) [
  | inl e ↦ rw e (omega arith)
  | inr e ↦ rw e (
      and_then-Leaves (suc (length bs)) (length bs) (read_c_string bs)
        (λ s rest. parsed (b ∷ s) rest) (read_c_string-Leaves bs) (λ s rest h. omega (arith, h)))
]

read_uint-Leaves : (k : ℕ) (bs : List ℕ) → Leaves (length bs) (read_uint k bs)
unfolding read_uint
read_uint-Leaves zero bs = omega arith
read_uint-Leaves (suc k) [] = tt
read_uint-Leaves (suc k) (b ∷ bs) =
    and_then-Leaves (suc (length bs)) (length bs) (read_uint k bs)
      (λ n rest. parsed (b + 256 * n) rest) (read_uint-Leaves k bs) (λ n rest h. omega (arith, h))

-- A number, as some value.
uint_value-Leaves :
    (k : ℕ) (f : ℕ → Value) (bs : List ℕ)
    → Leaves (length bs) (and_then (read_uint k bs) (λ n rest. parsed (f n) rest))
uint_value-Leaves k f bs =
    and_then-Leaves (length bs) (length bs) (read_uint k bs) (λ n rest. parsed (f n) rest)
      (read_uint-Leaves k bs) (λ n rest h. h)

read_value-Leaves : (t : ℕ) (bs : List ℕ) → Leaves (length bs) (read_value t bs)
unfolding read_value
read_value-Leaves t bs = elim (Bool-cases ((t == 1) || (t == 5))) [
  | inl e ↦ rw e (
      and_then-Leaves (length bs) (length bs) (read_c_string bs) (λ s rest. parsed (text s) rest)
        (read_c_string-Leaves bs) (λ s rest h. h))
  | inr e ↦ rw e (elim (Bool-cases ((t == 2) || (t == 4) || (t == 6))) [
    | inl f ↦ rw f (uint_value-Leaves 4 (λ n. number n) bs)
    | inr f ↦ rw f (elim (Bool-cases (t == 7)) [
      | inl g ↦ rw g (uint_value-Leaves 8 (λ n. number n) bs)
      | inr g ↦ rw g (elim (Bool-cases (t == 10)) [
        | inl h ↦ rw h (uint_value-Leaves 8 signed_value bs)
        | inr h ↦ rw h (elim (Bool-cases (t == 3)) [
          | inl i ↦ rw i (uint_value-Leaves 4 (λ n. float n) bs)
          | inr i ↦ rw i tt
        ])
      ])
    ])
  ])
]

read_node-Leaves :
    (children : List ℕ → Parsed {0} Nodes) (t : ℕ) (bs : List ℕ)
    → ((rest : List ℕ) → length rest ≤ length bs → Leaves (length rest) (children rest))
    → Leaves (length bs) (read_node children t bs)
unfolding read_node
read_node-Leaves children t bs h =
    and_then-Leaves (length bs) (length bs) (read_c_string bs) _ (read_c_string-Leaves bs)
      (λ key rest le. elim (Bool-cases (t == 0)) [
        | inl e ↦ rw e (
            and_then-Leaves (length bs) (length rest) (children rest) _ (h rest le)
              (λ kids left l. omega (arith, le, l)))
        | inr e ↦ rw e (
            and_then-Leaves (length bs) (length rest) (read_value t rest) _
              (read_value-Leaves t rest) (λ value left l. omega (arith, le, l)))
      ])

parse_children-Leaves :
    (fuel : ℕ) (bs : List ℕ) → length bs < fuel → Leaves (length bs) (parse_children fuel bs)
unfolding parse_children
parse_children-Leaves zero bs small = absurd (omega (arith, small))
parse_children-Leaves (suc fuel) [] small = omega arith
parse_children-Leaves (suc fuel) (t ∷ bs) small = elim (Bool-cases (t == 8)) [
  | inl e ↦ rw e (omega arith)
  | inr e ↦ rw e (
      and_then-Leaves (suc (length bs)) (length bs) (read_node (parse_children fuel) t bs) _
        (read_node-Leaves (parse_children fuel) t bs
          (λ rest le. parse_children-Leaves fuel rest (omega (arith, le, small))))
        (λ node rest le.
          and_then-Leaves (suc (length bs)) (length rest) (parse_children fuel rest) _
            (parse_children-Leaves fuel rest (omega (arith, le, small)))
            (λ nodes left l. omega (arith, le, l))))
]

-- ParseBinaryVDF ends on every input: it returns a tree or reports an error. The counter of its
-- model, one more than the number of bytes, never runs out.
pub parse_binary_vdf-ends : (input : List ℕ) → parse_binary_vdf input ≢ out_of_fuel
unfolding parse_binary_vdf
parse_binary_vdf-ends input e =
    subst (Leaves (length input)) e (parse_children-Leaves (suc (length input)) input (omega arith))
