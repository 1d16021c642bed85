-- ===== src/Access/Listing.antt =====
-- What a token sees of the gameservers (Manager.List of controller/gameserver/manager.go with
-- IntersectIDs of controller/auth/auth.go).
use game_janitor.Base.{
  String, true, false, ◌&&◌, some, List, [], ◌∷◌, ◌++◌, if◌then◌else◌, is_empty, str_eq, str_elem,
  ◌≡◌, inl, inr, refl, ap, arith, eq_iff, Bool-cases, keep, All, subst,
}
use game_janitor.Model.{Gameserver}
use game_janitor.Store.{Store}
use game_janitor.Access.{
  Token, is_admin, intersect_ids, Filter, passes, list, list_visible, list_owned, list_granted,
}

str_elem-keep :
    (id : String) (allowed xs : List String)
    → str_elem id (keep (λ x. str_elem x allowed) xs) ≡ (str_elem id xs && str_elem id allowed)
str_elem-keep id allowed [] = refl
str_elem-keep id allowed (x ∷ xs) = elim (Bool-cases (str_eq x id)) [
  | inl same ↦
      let e = (eq_iff x id).0 same in
      ground (arith, str_elem-keep id allowed xs, eq_iff x id, ap (λ k. str_elem k allowed) e)
  | inr other ↦ ground (arith, str_elem-keep id allowed xs)
]

-- Of two lists of ids that are not empty, the intersection has the ids that both have; an empty list
-- restricts nothing, on either side.
pub intersect_ids-elem :
    (requested allowed : List String) (id : String)
    → str_elem id (intersect_ids requested allowed) ≡ (
        if is_empty allowed
        then str_elem id requested
        else if is_empty requested
        then str_elem id allowed
        else str_elem id requested && str_elem id allowed)
unfolding intersect_ids
intersect_ids-elem requested [] id = refl
intersect_ids-elem [] (a ∷ more) id = refl
intersect_ids-elem (r ∷ rs) (a ∷ more) id = str_elem-keep id (a ∷ more) (r ∷ rs)

-- The intersection with visible ids has visible ids only.
intersect-visible :
    (requested visible : List String) (id : String)
    → is_empty visible ≡ false
    → str_elem id (intersect_ids requested visible) ≡ true
    → str_elem id visible ≡ true
intersect-visible requested visible id full e =
    let h = intersect_ids-elem requested visible id in ground arith

abbrev IsVisible : List String → Gameserver → Type 0
IsVisible visible gs = str_elem gs.id visible ≡ true

passes-ids :
    (f : Filter) (gs : Gameserver)
    → is_empty f.ids ≡ false
    → passes f gs ≡ true
    → str_elem gs.id f.ids ≡ true
unfolding passes
passes-ids f gs full e = ground arith

keep-passes :
    (f : Filter) (ids visible : List String) (specs : List Gameserver)
    → is_empty ids ≡ false
    → ((id : String) → str_elem id ids ≡ true → str_elem id visible ≡ true)
    → All (IsVisible visible) (keep (passes (record f { ids = ids })) specs)
keep-passes f ids visible [] full sub = tt
keep-passes f ids visible (gs ∷ specs) full sub =
    let rest = keep-passes f ids visible specs full sub in
    elim (Bool-cases (passes (record f { ids = ids }) gs)) [
      | inl e ↦ rw e (sub gs.id (passes-ids (record f { ids = ids }) gs full e), rest)
      | inr e ↦ rw e rest
    ]

list_visible-IsVisible :
    (specs : List Gameserver) (f : Filter) (visible : List String)
    → All (IsVisible visible) (list_visible specs f visible)
unfolding list_visible
list_visible-IsVisible specs f visible = elim (Bool-cases (is_empty visible)) [
  | inl e ↦ rw e tt
  | inr e ↦ rw e (elim (Bool-cases (is_empty (intersect_ids f.ids visible))) [
    | inl g ↦ rw g tt
    | inr g ↦ rw g (
        keep-passes f (intersect_ids f.ids visible) visible specs g
          (λ id. intersect-visible f.ids visible id e))
  ])
]

-- Where the two queries answer, a token that is not an admin's is shown only gameservers that it owns or that grant it something,
-- whatever it asks for.
pub list-IsVisible :
    (s : Store) (specs rows : List Gameserver) (f : Filter) (t : Token) (owned others : List String)
    → is_admin (some t) ≡ false
    → list_owned s t ≡ some owned
    → list_granted s t ≡ some others
    → list s specs f (some t) ≡ some rows
    → All (λ gs. str_elem gs.id (owned ++ others) ≡ true) rows
unfolding list
list-IsVisible s specs rows f t owned others user o g e =
    let listed : list_visible specs f (owned ++ others) ≡ rows = ground (arith, o, g) in
    subst (All (IsVisible (owned ++ others))) listed
      (list_visible-IsVisible specs f (owned ++ others))
