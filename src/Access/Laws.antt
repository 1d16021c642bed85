-- ===== src/Access/Laws.antt =====
-- What the guards of api/middleware.go let through.
use game_janitor.Base.{
  ap, ◌∙◌, eq_refl, lookup, String, true, false, Option, none, some, List, [], ◌∷◌, str_eq,
  str_elem, ◌≡◌, ◌≢◌, ◌↔◌, ◌⊎◌, inl, inr, refl, arith, eq_iff, Bool-cases, Option-cases, subst,
}
use game_janitor.Model.{Gameserver}
use game_janitor.Store.{Store, find_gameserver, owner_query, grants_query}
use game_janitor.Store.Laws.{find-id}
use game_janitor.Access.{
  Token, role_admin, is_admin, has_grant_permission, is_owner, granted, get_gameserver_owner,
  get_gameserver_grants, served, forbidden, guard_by, require_permission, require_gameserver_access,
  token_can_access_gameserver,
}

-- The row of this id.
abbrev pub IsRow : Store → String → Gameserver → Type 0
IsRow s id gs = (gs.id ≡ id) × (find_gameserver id s.gameservers ≡ some gs)

-- A row of this id was created by the token.
abbrev pub Owns : Store → Token → String → Type 0
Owns s t id =
    (s.fails owner_query ≡ false)
    × (gs : Gameserver) × IsRow s id gs
    × (gs.created_by_token_id ≡ some t.id)

-- The grants in the row of this id have these permissions for the token.
abbrev pub Grants : Store → Token → String → List String → Type 0
Grants s t id perms =
    (s.fails grants_query ≡ false)
    × (gs : Gameserver) × IsRow s id gs
    × (lookup t.id gs.grants ≡ some perms)

-- The gameserver is the token's own, or it grants the token this permission: no list stands for all.
abbrev pub IsPermitted : Store → Token → String → String → Type 0
IsPermitted s t permission id =
    Owns s t id
    ⊎ ((perms : List String) × Grants s t id perms
        × ((perms ≡ []) ⊎ (str_elem permission perms ≡ true)))

-- The same as the guard computes it.
abbrev IsAllowed : Store → Token → String → String → Type 0
IsAllowed s t permission id =
    (is_owner s t id ≡ true)
    ⊎ ((perms : List String) × (granted s t id ≡ some perms)
        × ((perms ≡ []) ⊎ (str_elem permission perms ≡ true)))

is_owner-Owns : (s : Store) (t : Token) (id : String) → is_owner s t id ≡ true → Owns s t id
unfolding get_gameserver_owner
is_owner-Owns s t id e = elim (Bool-cases (s.fails owner_query)) [
  | inl f ↦ absurd (ground (arith, e, f))
  | inr f ↦ elim (Option-cases (find_gameserver id s.gameservers)) [
    | inl g ↦ absurd (ground (arith, e, f, g))
    | inr (gs, g) ↦ elim (Option-cases gs.created_by_token_id) [
      | inl o ↦ absurd (ground (arith, e, f, g, o))
      | inr (owner, o) ↦
          let same : owner ≡ t.id = ground (arith, e, f, g, o, eq_iff owner t.id) in
          (f, gs, (find-id id s.gameservers gs g, g), o ∙ ap some same)
    ]
  ]
]

Owns-is_owner : (s : Store) (t : Token) (id : String) → Owns s t id → is_owner s t id ≡ true
unfolding get_gameserver_owner
Owns-is_owner s t id (f, gs, (_, g), o) = ground (arith, f, g, o, eq_refl t.id)

granted-Grants :
    (s : Store) (t : Token) (id : String) (perms : List String)
    → granted s t id ≡ some perms
    → Grants s t id perms
unfolding get_gameserver_grants
granted-Grants s t id perms e = elim (Bool-cases (s.fails grants_query)) [
  | inl f ↦ absurd (ground (arith, e, f))
  | inr f ↦ elim (Option-cases (find_gameserver id s.gameservers)) [
    | inl g ↦ absurd (ground (arith, e, f, g))
    | inr (gs, g) ↦ (f, gs, (find-id id s.gameservers gs g, g), ground (arith, e, f, g))
  ]
]

Grants-granted :
    (s : Store) (t : Token) (id : String) (perms : List String)
    → Grants s t id perms
    → granted s t id ≡ some perms
unfolding get_gameserver_grants
Grants-granted s t id perms (f, gs, (_, g), o) = ground (arith, f, g, o)

IsAllowed-IsPermitted :
    (s : Store) (t : Token) (permission id : String)
    → IsAllowed s t permission id ↔ IsPermitted s t permission id
IsAllowed-IsPermitted s t permission id = (
  λ h. elim h [
    | inl own ↦ inl (is_owner-Owns s t id own)
    | inr (perms, e, k) ↦ inr (perms, granted-Grants s t id perms e, k)
  ],
  λ h. elim h [
    | inl own ↦ inl (Owns-is_owner s t id own)
    | inr (perms, e, k) ↦ inr (perms, Grants-granted s t id perms e, k)
  ],
)

is_admin-role : (t : Token) → (is_admin (some t) ≡ true) ↔ (t.role ≡ role_admin)
unfolding is_admin
is_admin-role t = (λ e. ground arith, λ e. ground arith)

has_grant_permission_iff :
    (perms : List String) (permission : String)
    → (has_grant_permission perms permission ≡ true)
      ↔ ((perms ≡ []) ⊎ (str_elem permission perms ≡ true))
unfolding has_grant_permission
has_grant_permission_iff [] permission = (λ _. inl refl, λ _. refl)
has_grant_permission_iff (p ∷ ps) permission = (λ e. inr e, λ h. elim h [ inl e ↦ cc | inr e ↦ e ])

guarded_owner :
    (s : Store) (permission id : String) (t : Token)
    → (grants : Option (List String)) → granted s t id ≡ grants
    → is_owner s t id ≡ false
    → (elim grants [
      | none ↦ forbidden
      | some perms ↦ guard_by (has_grant_permission perms permission)
    ]
        ≡ served)
      ↔ IsAllowed s t permission id
guarded_owner s permission id t none e own =
    (λ f. cc, λ h. elim h [ inl f ↦ cc | inr (perms, f, g) ↦ cc ])
guarded_owner s permission id t (some perms) e own =
    let iff = has_grant_permission_iff perms permission in
    (
      (λ f. inr (perms, e, iff.0 (ground arith))),
      (λ h. elim h [
        | inl f ↦ cc
        | inr (perms', f, g) ↦
            let same : perms' ≡ perms = ground arith in
            let ok = iff.1 (subst (λ p. (p ≡ []) ⊎ (str_elem permission p ≡ true)) same g) in
            ground arith
      ]),
    )

require_permission-IsAllowed :
    (s : Store) (permission id : String) (t : Token)
    → (require_permission s permission id (some t) ≡ served)
      ↔ ((t.role ≡ role_admin) ⊎ ((id ≢ "") × IsAllowed s t permission id))
unfolding require_permission
require_permission-IsAllowed s permission id t = elim (Bool-cases (is_admin (some t))) [
  | inl a ↦ rw a (λ _. inl ((is_admin-role t).0 a), λ _. refl)
  | inr a ↦ rw a (elim (Bool-cases (str_eq id "")) [
    | inl b ↦ rw b (
      λ e. cc,
      λ h. elim h [
        | inl adm ↦ cc ((is_admin-role t).1 adm)
        | inr (full, _) ↦ absurd (full ((eq_iff id "").0 b))
      ],
    )
    | inr b ↦ rw b (elim (Bool-cases (is_owner s t id)) [
      | inl c ↦ rw c (λ _. inr (λ e. cc ((eq_iff id "").1 e), inl refl), λ _. refl)
      | inr c ↦
          let rest = rw c at (guarded_owner s permission id t (granted s t id) refl c) in
          rw c (
            λ e. inr (λ f. cc ((eq_iff id "").1 f), rest.0 e),
            λ h. elim h [ inl adm ↦ cc ((is_admin-role t).1 adm) | inr (_, p) ↦ rest.1 p ],
          )
    ])
  ])
]

-- A request with a token is served exactly where the token is an admin's, or the route names a
-- gameserver whose row was created by the token or grants the token this permission, all permissions
-- where the grant lists none, and the query for it is answered.
pub require_permission-IsPermitted :
    (s : Store) (permission id : String) (t : Token)
    → (require_permission s permission id (some t) ≡ served)
      ↔ ((t.role ≡ role_admin) ⊎ ((id ≢ "") × IsPermitted s t permission id))
require_permission-IsPermitted s permission id t =
    let guard = require_permission-IsAllowed s permission id t in
    let same = IsAllowed-IsPermitted s t permission id in
    (
      λ e. elim (guard.0 e) [ inl adm ↦ inl adm | inr (full, p) ↦ inr (full, same.0 p) ],
      λ h. guard.1 (elim h [ inl adm ↦ inl adm | inr (full, p) ↦ inr (full, same.1 p) ]),
    )

-- Whoever is served on a gameserver for any one permission has access to the gameserver.
pub require_permission-access :
    (s : Store) (permission id : String) (token : Option Token)
    → require_permission s permission id token ≡ served
    → require_gameserver_access s id token ≡ served
unfolding require_permission require_gameserver_access token_can_access_gameserver
require_permission-access s permission id none e = refl
require_permission-access s permission id (some t) e = elim (Option-cases (granted s t id)) [
  | inl f ↦ ground (arith, f)
  | inr (perms, f) ↦ ground (arith, f)
]
