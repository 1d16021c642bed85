-- ===== src/Vdf/Tests.antt =====
-- A small tree of Steam's product information (steam/vdf.go).
use game_janitor.Base.{◌≡◌, ◌≢◌, refl, [], ◌∷◌, arith}
use game_janitor.Vdf.{
  Nodes, leaf, branch, nil, cons, text, number, parsed, failed, unterminated, out_of_fuel,
  parse_binary_vdf,
}
use game_janitor.Vdf.Encode.{encode_nodes, AreTrees}
use game_janitor.Vdf.Encode.RoundTrip.{parse_binary_vdf-encode_nodes}
use game_janitor.Vdf.Total.{parse_binary_vdf-ends}

-- appid 730 with a name, in a branch.
abbrev tree : Nodes
tree =
    cons
      (branch (97 ∷ [])
        (cons (leaf (105 ∷ []) (number 730)) (cons (leaf (110 ∷ []) (text (99 ∷ 115 ∷ []))) nil)))
      nil

parse_binary_vdf-encode_nodes_example :
    parse_binary_vdf (encode_nodes tree (8 ∷ [])) ≡ parsed tree []
unfolding AreTrees
parse_binary_vdf-encode_nodes_example =
    parse_binary_vdf-encode_nodes tree
      (((refl, tt), ((((refl, tt), omega arith), (((refl, tt), (refl, (refl, tt))), tt)))), tt)

parse_binary_vdf-ends_example : parse_binary_vdf (0 ∷ 97 ∷ []) ≢ out_of_fuel
parse_binary_vdf-ends_example = parse_binary_vdf-ends (0 ∷ 97 ∷ [])

-- A key without its end is an error.
cut_off : parse_binary_vdf (0 ∷ 97 ∷ []) ≡ failed unterminated
unfolding parse_binary_vdf
cut_off = refl
