-- ===== src/Vdf.antt =====
-- steam/vdf.go: Valve's binary KeyValues format, as Steam's product information is sent. Bytes are
-- numbers, a Go string is its bytes, and a number's text stands as the number.
pub mod Encode
pub mod Total
mod Tests
use game_janitor.Base.{
  ℕ, zero, suc, ◌+◌, ◌-◌, ◌*◌, ◌^◌, Bool, true, false, ◌||◌, Option, none, some, List, [], ◌∷◌,
  if◌then◌else◌, ◌==◌, ltb, length,
}

-- A value's text: bytes, a decimal number from 0, the number -(n + 1), or a float by its bits.
pub data Value : Type 0 where
  text : List ℕ → Value
  number : ℕ → Value
  negative : ℕ → Value
  float : ℕ → Value

-- VDFNode: a leaf has a value, a branch has children.
mutual
  pub data Node : Type 0 where
    leaf : List ℕ → Value → Node
    branch : List ℕ → Nodes → Node

  pub data Nodes : Type 0 where
    nil : Nodes
    cons : Node → Nodes → Nodes

pub data ParseError : Type 0 where
  unterminated truncated : ParseError
  unknown_type : ℕ → ParseError

-- What is parsed, with the bytes that are left; `out_of_fuel` stands for a loop that goes on.
pub data Parsed {ℓ} (A : Type ℓ) : Type ℓ where
  parsed : A → List ℕ → Parsed A
  failed : ParseError → Parsed A
  out_of_fuel : Parsed A

abbrev pub and_then {ℓ κ} :
    {A : Type ℓ} {B : Type κ} → Parsed A → (A → List ℕ → Parsed B) → Parsed B
and_then (parsed a rest) next = next a rest
and_then (failed e) next = failed e
and_then out_of_fuel next = out_of_fuel

-- readCString
pub read_c_string : List ℕ → Parsed {0} (List ℕ)
read_c_string [] = failed unterminated
read_c_string (b ∷ bs) =
    let later = read_c_string bs in
    if b == 0 then parsed [] bs else and_then later (λ s rest. parsed (b ∷ s) rest)

-- `k` bytes, the least significant first.
pub read_uint : ℕ → List ℕ → Parsed {0} ℕ
read_uint zero bs = parsed 0 bs
read_uint (suc k) [] = failed truncated
read_uint (suc k) (b ∷ bs) = and_then (read_uint k bs) (λ n rest. parsed (b + 256 * n) rest)

-- The text of an int64, by its 64 bits.
pub signed_value : ℕ → Value
signed_value n = if ltb n (2 ^ 63) then number n else negative (2 ^ 64 - (n + 1))

-- The value of a leaf, by its type.
pub read_value : ℕ → List ℕ → Parsed {0} Value
unfolding read_c_string read_uint signed_value
read_value t bs =
    if (t == 1) || (t == 5)
    then and_then (read_c_string bs) (λ s rest. parsed (text s) rest)
    else if (t == 2) || (t == 4) || (t == 6)
    then and_then (read_uint 4 bs) (λ n rest. parsed (number n) rest)
    else if t == 7
    then and_then (read_uint 8 bs) (λ n rest. parsed (number n) rest)
    else if t == 10
    then and_then (read_uint 8 bs) (λ n rest. parsed (signed_value n) rest)
    else if t == 3
    then and_then (read_uint 4 bs) (λ n rest. parsed (float n) rest)
    else failed (unknown_type t)

-- A node after its type, with the parser of children.
pub read_node : (List ℕ → Parsed {0} Nodes) → ℕ → List ℕ → Parsed {0} Node
unfolding read_value
read_node children t bs = and_then (read_c_string bs) (λ key rest.
    if t == 0
    then and_then (children rest) (λ kids left. parsed (branch key kids) left)
    else and_then (read_value t rest) (λ value left. parsed (leaf key value) left))

-- parseChildren: a branch ends at its end mark, or where the bytes end.
pub parse_children : ℕ → List ℕ → Parsed {0} Nodes
unfolding read_node
parse_children zero bs = out_of_fuel
parse_children (suc fuel) [] = parsed nil []
parse_children (suc fuel) (t ∷ bs) =
    if t == 8
    then parsed nil bs
    else and_then (read_node (parse_children fuel) t bs) (λ node rest.
      and_then (parse_children fuel rest) (λ nodes left. parsed (cons node nodes) left))

-- ParseBinaryVDF: the children of the root.
unfoldable pub parse_binary_vdf : List ℕ → Parsed {0} Nodes
unfolding parse_children
parse_binary_vdf input = parse_children (suc (length input)) input
