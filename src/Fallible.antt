-- ===== src/Fallible.antt =====
-- Sequences of steps that may raise: `do` blocks over the outcomes of Store, checks, and loops.
use backup_telebot.Prelude.{subst, All, arith, Bool, true, false, ◌≡◌, refl, List, [], ◌∷◌}
use backup_telebot.Store.{Error, Outcome, returns, raises}

infixl 5 ◌>>=◌ ◌>>◌
abbrev pub ◌>>=◌ {ℓ κ} : {A : Type ℓ} {B : Type κ} → Outcome A → (A → Outcome B) → Outcome B
◌>>=◌ (returns a) f = f a
◌>>=◌ (raises e) f = raises e

abbrev pub ◌>>◌ {ℓ κ} : {A : Type ℓ} {B : Type κ} → Outcome A → Outcome B → Outcome B
◌>>◌ (returns a) k = k
◌>>◌ (raises e) k = raises e

abbrev pub pure {ℓ} : {A : Type ℓ} → A → Outcome A
pure a = returns a

-- A loop that collects what its rounds return.
unfoldable pub traverse {ℓ κ} :
    {A : Type ℓ} {B : Type κ} → (A → Outcome B) → List A → Outcome (List B)
traverse f [] = returns []
traverse f (a ∷ rest) = f a >>= λ b. traverse f rest >>= λ bs. returns (b ∷ bs)

-- `if not ok: raise error`
abbrev pub require : Bool → Error → Outcome (Unit {0})
require true e = returns tt
require false e = raises e

-- What returns has passed all its steps.
pub bind-returns :
    {A B : Type 0} (o : Outcome A) (f : A → Outcome B) {b : B}
    → (o >>= f) ≡ returns b
    → (a : A) × (o ≡ returns a) × (f a ≡ returns b)
bind-returns (returns a) f h = (a, refl, h)
bind-returns (raises e) f h = ground (arith, h)

pub require-returns :
    {B : Type 0} (ok : Bool) (e : Error) (k : Outcome B) {b : B}
    → (require ok e >> k) ≡ returns b
    → (ok ≡ true) × (k ≡ returns b)
require-returns true e k h = (refl, h)
require-returns false e k h = ground (arith, h)

pub then-returns :
    {B : Type 0} (o : Outcome (Unit {0})) (k : Outcome B) {b : B}
    → (o >> k) ≡ returns b
    → (o ≡ returns tt) × (k ≡ returns b)
then-returns (returns t) k h = (refl, h)
then-returns (raises e) k h = ground (arith, h)

pub returns-value : {A : Type 0} {a b : A} → ◌≡◌ {A = Outcome A} (returns a) (returns b) → a ≡ b
returns-value h = cc

-- What a loop collects has what each round's result has.
pub traverse-All :
    {A B : Type 0} (P : B → Type 0) (f : A → Outcome B)
    (each : (a : A) (b : B) → f a ≡ returns b → P b) (xs : List A) {ys : List B}
    → traverse f xs ≡ returns ys
    → All P ys
unfolding traverse
traverse-All P f each [] h = subst (All P) (returns-value h) tt
traverse-All P f each (x ∷ xs) h =
    let (y, ey, h1) = bind-returns (f x) (λ b. traverse f xs >>= λ bs. returns (b ∷ bs)) h in
    let (ys, eys, h2) = bind-returns (traverse f xs) (λ bs. returns (y ∷ bs)) h1 in
    subst (All P) (returns-value h2) (each x y ey, traverse-All P f each xs eys)
