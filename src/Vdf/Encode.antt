-- ===== src/Vdf/Encode.antt =====
-- What Steam sends: an encoder of trees in the binary KeyValues format, as an independent description
-- of what steam/vdf.go reads. Each function puts its bytes before the rest.
pub mod RoundTrip
use game_janitor.Base.{
  ℕ, zero, suc, ◌+◌, ◌-◌, ◌*◌, ◌/◌, ◌%◌, ◌^◌, ◌<◌, ◌≡◌, Bool, true, false, List, [], ◌∷◌,
  if◌then◌else◌, ltb, ◌==◌, All,
}
use game_janitor.Vdf.{Value, text, number, negative, float, Node, Nodes, leaf, branch, nil, cons}

pub encode_string : List ℕ → List ℕ → List ℕ
encode_string [] rest = 0 ∷ rest
encode_string (b ∷ s) rest = b ∷ encode_string s rest

pub encode_uint : ℕ → ℕ → List ℕ → List ℕ
encode_uint zero n rest = rest
encode_uint (suc k) n rest = n % 256 ∷ encode_uint k (n / 256) rest

pub type_of : Value → ℕ
type_of (text s) = 1
type_of (number n) = if ltb n (2 ^ 32) then 2 else 7
type_of (negative n) = 10
type_of (float n) = 3

pub encode_value : Value → List ℕ → List ℕ
unfolding encode_string encode_uint
encode_value (text s) rest = encode_string s rest
encode_value (number n) rest = if ltb n (2 ^ 32) then encode_uint 4 n rest else encode_uint 8 n rest
encode_value (negative n) rest = encode_uint 8 (2 ^ 64 - (n + 1)) rest
encode_value (float n) rest = encode_uint 4 n rest

mutual
  unfolding encode_value type_of

  pub encode_node : Node → List ℕ → List ℕ
  encode_node (leaf key value) rest = type_of value ∷ encode_string key (encode_value value rest)
  encode_node (branch key kids) rest = 0 ∷ encode_string key (encode_nodes kids (8 ∷ rest))

  pub encode_nodes : Nodes → List ℕ → List ℕ
  encode_nodes nil rest = rest
  encode_nodes (cons node nodes) rest = encode_node node (encode_nodes nodes rest)

-- Strings have no zero byte, and numbers fit their 64 or 32 bits.
abbrev pub IsString : List ℕ → Type 0
IsString s = All (λ b. (b == 0) ≡ false) s

abbrev pub IsEncodable : Value → Type 0
IsEncodable (text s) = IsString s
IsEncodable (number n) = n < 2 ^ 64
IsEncodable (negative n) = n < 2 ^ 63
IsEncodable (float n) = n < 2 ^ 32

unfoldable mutual
  pub IsTree : Node → Type 0
  IsTree (leaf key value) = IsString key × IsEncodable value
  IsTree (branch key kids) = IsString key × AreTrees kids

  pub AreTrees : Nodes → Type 0
  AreTrees nil = Unit
  AreTrees (cons node nodes) = IsTree node × AreTrees nodes
