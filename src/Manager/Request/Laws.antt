-- ===== src/Manager/Request/Laws.antt =====
-- What a chain of checks (controller/gameserver/manager.go) that passed tells of its parts.
use game_janitor.Base.{◌≡◌, ◌⊎◌, inl, inr, refl, ap, ◌∙◌}
use game_janitor.Manager.Request.{Checked, Refusal, passed, rejected, and_then}

pub and_then-passed {ℓ κ} :
    {A : Type ℓ} {B : Type κ} (c : Checked A) (next : A → Checked B) (b : B)
    → and_then c next ≡ passed b
    → (a : A) × (c ≡ passed a) × (next a ≡ passed b)
and_then-passed (passed a) next b e = (a, refl, e)
and_then-passed (rejected r) next b e = absurd cc

pub passed-same {ℓ} : {A : Type ℓ} {a b : A} → passed a ≡ passed b → a ≡ b
passed-same e = cc

pub Checked-cases {ℓ} :
    {A : Type ℓ} (c : Checked A) → ((a : A) × (c ≡ passed a)) ⊎ ((r : Refusal) × (c ≡ rejected r))
Checked-cases (passed a) = inl (a, refl)
Checked-cases (rejected r) = inr (r, refl)

-- A chain goes on after a check that passed.
pub and_then-step {ℓ κ} :
    {A : Type ℓ} {B : Type κ} {c : Checked A} {a : A} {d : Checked B} (next : A → Checked B)
    → c ≡ passed a
    → next a ≡ d
    → and_then c next ≡ d
and_then-step next e f = ap (λ x. and_then x next) e ∙ f
