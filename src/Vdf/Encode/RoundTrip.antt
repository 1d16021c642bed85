-- ===== src/Vdf/Encode/RoundTrip.antt =====
-- What is encoded is read back (steam/vdf.go).
use game_janitor.Base.{
  ℕ, zero, suc, ◌+◌, ◌-◌, ◌/◌, ◌^◌, ◌≤◌, ◌<◌, ◌≡◌, refl, ap, ◌∙◌, false, List, [], ◌∷◌, ◌==◌, ltb,
  ltb→lt, length, Bool-cases, inl, inr, arith,
}
use game_janitor.Vdf.{
  Value, text, number, negative, float, Node, Nodes, leaf, branch, nil, cons, parsed, and_then,
  read_c_string, read_uint, read_value, read_node, parse_children, parse_binary_vdf, signed_value,
}
use game_janitor.Vdf.Encode.{
  encode_string, encode_uint, encode_value, encode_node, encode_nodes, type_of, IsString,
  IsEncodable, IsTree, AreTrees,
}

read_c_string-encode_string :
    (s rest : List ℕ) → IsString s → read_c_string (encode_string s rest) ≡ parsed s rest
unfolding read_c_string encode_string
read_c_string-encode_string [] rest h = refl
read_c_string-encode_string (b ∷ s) rest (nonzero, h) =
    rw nonzero (rw (read_c_string-encode_string s rest h) refl)

smaller : (k n : ℕ) → n < 256 ^ suc k → n / 256 < 256 ^ k
smaller k n small = omega (arith, small)

read_uint-encode_uint :
    (k n : ℕ) (rest : List ℕ) → n < 256 ^ k → read_uint k (encode_uint k n rest) ≡ parsed n rest
unfolding read_uint encode_uint
read_uint-encode_uint zero n rest small = ap (λ x. parsed x rest) (omega (arith, small))
read_uint-encode_uint (suc k) n rest small =
    let fits : n / 256 < 256 ^ k = smaller k n small in
    rw (read_uint-encode_uint k (n / 256) rest fits) (ap (λ x. parsed x rest) (omega arith))

signed_value-negative : (n : ℕ) → n < 2 ^ 63 → signed_value (2 ^ 64 - (n + 1)) ≡ negative n
unfolding signed_value
signed_value-negative n small = ground arith

-- A number, as some value.
uint_value :
    (k n : ℕ) (f : ℕ → Value) (rest : List ℕ)
    → n < 256 ^ k
    → and_then (read_uint k (encode_uint k n rest)) (λ m left. parsed (f m) left)
      ≡ parsed (f n) rest
uint_value k n f rest small =
    ap (λ p. and_then p (λ m left. parsed (f m) left)) (read_uint-encode_uint k n rest small)

read_value-encode_value :
    (v : Value) (rest : List ℕ)
    → IsEncodable v
    → read_value (type_of v) (encode_value v rest) ≡ parsed v rest
unfolding read_value type_of encode_value
read_value-encode_value (text s) rest h =
    ap (λ p. and_then p (λ t left. parsed (text t) left)) (read_c_string-encode_string s rest h)
read_value-encode_value (number n) rest h = elim (Bool-cases (ltb n (2 ^ 32))) [
  | inl e ↦ rw e (uint_value 4 n (λ m. number m) rest (omega (arith, ltb→lt n (2 ^ 32) e)))
  | inr e ↦ rw e (uint_value 8 n (λ m. number m) rest (omega (arith, h)))
]
read_value-encode_value (negative n) rest h =
    uint_value 8 (2 ^ 64 - (n + 1)) signed_value rest (omega (arith, h))
    ∙ ap (λ v. parsed v rest) (signed_value-negative n h)
read_value-encode_value (float n) rest h = uint_value 4 n (λ m. float m) rest (omega (arith, h))

-- How deep and long a tree is: the steps that reading it takes.
mutual
  steps_of : Node → ℕ
  steps_of (leaf key value) = 0
  steps_of (branch key kids) = steps kids

  steps : Nodes → ℕ
  steps nil = 1
  steps (cons node nodes) = suc (steps_of node + steps nodes)

type_of-leaf : (v : Value) → ((type_of v == 8) ≡ false) × ((type_of v == 0) ≡ false)
unfolding type_of
type_of-leaf (text s) = (refl, refl)
type_of-leaf (number n) = elim (Bool-cases (ltb n (2 ^ 32))) [
  | inl e ↦ rw e (refl, refl)
  | inr e ↦ rw e (refl, refl)
]
type_of-leaf (negative n) = (refl, refl)
type_of-leaf (float n) = (refl, refl)

mutual
  unfolding parse_children read_node encode_node steps IsTree AreTrees

  read_children :
      (fuel : ℕ) (nodes : Nodes) (rest : List ℕ)
      → steps nodes ≤ fuel
      → AreTrees nodes
      → parse_children fuel (encode_nodes nodes (8 ∷ rest)) ≡ parsed nodes rest
  read_children zero nil rest enough h = absurd (omega (arith, enough))
  read_children zero (cons node nodes) rest enough h = absurd (omega (arith, enough))
  read_children (suc fuel) nil rest enough h = refl
  read_children (suc fuel) (cons (leaf key value) nodes) rest enough ((string, fits), h) =
      let after = encode_nodes nodes (8 ∷ rest) in
      let (open_end, open_leaf) = type_of-leaf value in
      rw open_end (
        rw (read_c_string-encode_string key (encode_value value after) string) (
          rw open_leaf (
            rw (read_value-encode_value value after fits)
              (rw (read_children fuel nodes rest (omega (arith, enough)) h) refl))))
  read_children (suc fuel) (cons (branch key kids) nodes) rest enough ((string, trees), h) =
      let after = encode_nodes nodes (8 ∷ rest) in
      rw (read_c_string-encode_string key (encode_nodes kids (8 ∷ after)) string) (
        rw (read_children fuel kids after (omega (arith, enough)) trees)
          (rw (read_children fuel nodes rest (omega (arith, enough)) h) refl))

length-encode_string : (s rest : List ℕ) → length rest < length (encode_string s rest)
unfolding encode_string
length-encode_string [] rest = omega arith
length-encode_string (b ∷ s) rest = omega (arith, length-encode_string s rest)

length-encode_uint : (k n : ℕ) (rest : List ℕ) → length rest ≤ length (encode_uint k n rest)
unfolding encode_uint
length-encode_uint zero n rest = omega arith
length-encode_uint (suc k) n rest = omega (arith, length-encode_uint k (n / 256) rest)

length-encode_value : (v : Value) (rest : List ℕ) → length rest ≤ length (encode_value v rest)
unfolding encode_value
length-encode_value (text s) rest = omega (arith, length-encode_string s rest)
length-encode_value (number n) rest = elim (Bool-cases (ltb n (2 ^ 32))) [
  | inl e ↦ rw e (length-encode_uint 4 n rest)
  | inr e ↦ rw e (length-encode_uint 8 n rest)
]
length-encode_value (negative n) rest = length-encode_uint 8 (2 ^ 64 - (n + 1)) rest
length-encode_value (float n) rest = length-encode_uint 4 n rest

-- There are enough bytes for the steps that reading takes.
mutual
  unfolding encode_node steps

  steps_of-le :
      (node : Node) (rest : List ℕ) → steps_of node + length rest < length (encode_node node rest)
  steps_of-le (leaf key value) rest =
      omega
        (arith, length-encode_string key (encode_value value rest), length-encode_value value rest)
  steps_of-le (branch key kids) rest =
      omega
        (arith, length-encode_string key (encode_nodes kids (8 ∷ rest)), steps-le kids (8 ∷ rest))

  steps-le :
      (nodes : Nodes) (rest : List ℕ)
      → steps nodes + length rest ≤ suc (length (encode_nodes nodes rest))
  steps-le nil rest = omega arith
  steps-le (cons node nodes) rest =
      omega (arith, steps_of-le node (encode_nodes nodes rest), steps-le nodes rest)

-- A tree whose strings have no zero byte and whose numbers fit their 64 or 32 bits is read back by
-- ParseBinaryVDF from its encoding with an end mark, and no byte is left.
pub parse_binary_vdf-encode_nodes :
    (nodes : Nodes)
    → AreTrees nodes
    → parse_binary_vdf (encode_nodes nodes (8 ∷ [])) ≡ parsed nodes []
unfolding parse_binary_vdf
parse_binary_vdf-encode_nodes nodes trees =
    read_children (suc (length (encode_nodes nodes (8 ∷ [])))) nodes []
      (omega (arith, steps-le nodes (8 ∷ []))) trees
