-- ===== src/Base/Maps.antt =====
-- A Go map with text keys, as an association list with its laws in `if` form.
use Prim.Native.String.{String}
use mathlib.Core.Path.{◌≡◌, refl}
use mathlib.Core.Option.{Option, none, some}
use mathlib.Core.List.{List, [], ◌∷◌}
use native.Mathlib.Omega.{arith}
use text.Mathlib.Text.{◌==◌ as str_eq}
use text.Mathlib.TextEquality.{eq_iff}
use game_janitor.Base.Tests.{if◌then◌else◌}

module _ {ℓ} {V : Type ℓ} where
  -- m[key]
  unfoldable pub lookup : String → List (String × V) → Option V
  lookup key [] = none
  lookup key ((own, value) ∷ rest) =
      let later = lookup key rest in if str_eq own key then some value else later

  -- delete(m, key)
  unfoldable pub delete : String → List (String × V) → List (String × V)
  delete key [] = []
  delete key ((own, value) ∷ rest) =
      let others = delete key rest in if str_eq own key then others else (own, value) ∷ others

  -- m[key] = new
  unfoldable pub insert : String → V → List (String × V) → List (String × V)
  insert key new [] = (key, new) ∷ []
  insert key new ((own, value) ∷ rest) =
      let others = insert key new rest in
      if str_eq own key then (key, new) ∷ rest else (own, value) ∷ others

  pub lookup-delete :
      (key asked : String) (m : List (String × V))
      → lookup asked (delete key m) ≡ (if str_eq key asked then none else lookup asked m)
  unfolding delete lookup
  lookup-delete key asked [] = ground arith
  lookup-delete key asked ((own, value) ∷ rest) =
      ground
        (arith, lookup-delete key asked rest, eq_iff own key, eq_iff own asked, eq_iff key asked)

  pub lookup-insert :
      (key asked : String) (new : V) (m : List (String × V))
      → lookup asked (insert key new m) ≡ (if str_eq key asked then some new else lookup asked m)
  unfolding insert lookup
  lookup-insert key asked new [] = refl
  lookup-insert key asked new ((own, value) ∷ rest) =
      ground (
        arith,
        lookup-insert key asked new rest,
        eq_iff own key,
        eq_iff own asked,
        eq_iff key asked,
      )
