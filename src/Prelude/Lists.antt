-- ===== src/Prelude/Lists.antt =====
-- Lists as tables of rows: search, selection, update in place, and the number of rows that pass a
-- test. A proof about a table mostly counts rows.
use Prim.Native.Nat.{ℕ, suc, ◌+◌, ◌≤◌}
use mathlib.Core.Path.{◌≡◌, refl, ap, subst}
use mathlib.Core.Bool.{Bool, true, false, ◌&&◌, ◌||◌}
use mathlib.Core.List.{List, [], ◌∷◌, ◌++◌}
use mathlib.Core.Option.{Option, none, some}
use native.Mathlib.Omega.{arith}
use backup_telebot.Prelude.Tests.{get_or, if◌then◌else◌}

module _ {ℓ} {A : Type ℓ} where
  abbrev pub length : List A → ℕ
  length [] = 0
  length (x ∷ xs) = suc (length xs)

  pub length-append : (xs ys : List A) → length (xs ++ ys) ≡ length xs + length ys
  length-append [] ys = omega arith
  length-append (x ∷ xs) ys = omega (arith, length-append xs ys)

  -- The first row that passes the test.
  unfoldable pub find : (A → Bool) → List A → Option A
  find p [] = none
  find p (x ∷ xs) = if p x then some x else find p xs

  -- `UPDATE ... WHERE p`.
  unfoldable pub update : (A → Bool) → (A → A) → List A → List A
  update p f [] = []
  update p f (x ∷ xs) = (if p x then f x else x) ∷ update p f xs

  -- `DELETE ... WHERE NOT p`.
  unfoldable pub keep : (A → Bool) → List A → List A
  keep p [] = []
  keep p (x ∷ xs) = let rest = keep p xs in if p x then x ∷ rest else rest

  pub choose : (A → A → Bool) → A → Option A → Option A
  choose before x none = some x
  choose before x (some y) = if before y x then some y else some x

  -- `SELECT ... WHERE p ORDER BY before LIMIT 1`: the first row by the order among those that pass.
  unfoldable pub first_by : (A → A → Bool) → (A → Bool) → List A → Option A
  unfolding choose
  first_by before p [] = none
  first_by before p (x ∷ xs) =
      let best = first_by before p xs in if p x then choose before x best else best

  unfoldable pub all : (A → Bool) → List A → Bool
  all p [] = true
  all p (x ∷ xs) = p x && all p xs

  unfoldable pub any : (A → Bool) → List A → Bool
  any p [] = false
  any p (x ∷ xs) = p x || any p xs

  -- The number of rows that pass the test.
  unfoldable pub count : (A → Bool) → List A → ℕ
  count p [] = 0
  count p (x ∷ xs) = (if p x then 1 else 0) + count p xs

  abbrev pub All {κ} : (A → Type κ) → List A → Type κ
  All P [] = Unit
  All P (x ∷ xs) = P x × All P xs

module _ {ℓ} {A : Type ℓ} where
  pub count-append : (p : A → Bool) (xs ys : List A) → count p (xs ++ ys) ≡ count p xs + count p ys
  unfolding count
  count-append p [] ys = omega arith
  count-append p (x ∷ xs) ys = omega (arith, count-append p xs ys)

  -- An update under which no row starts to pass `q` does not raise the count of `q`.
  pub count-update_le :
      (q p : A → Bool) (f : A → A) (xs : List A)
      → All (λ x. p x ≡ true → q (f x) ≡ true → q x ≡ true) xs
      → count q (update p f xs) ≤ count q xs
  unfolding count update
  count-update_le q p f [] h = omega arith
  count-update_le q p f (x ∷ xs) h = ground (arith, h.0, count-update_le q p f xs h.1)

  -- An update that changes the test of no row leaves the count.
  pub count-update_same :
      (q p : A → Bool) (f : A → A) (xs : List A)
      → All (λ x. p x ≡ true → q (f x) ≡ q x) xs
      → count q (update p f xs) ≡ count q xs
  unfolding count update
  count-update_same q p f [] h = refl
  count-update_same q p f (x ∷ xs) h = ground (arith, h.0, count-update_same q p f xs h.1)

  pub count_le :
      (q p : A → Bool) (xs : List A) → ((x : A) → q x ≡ true → p x ≡ true) → count q xs ≤ count p xs
  unfolding count
  count_le q p [] h = omega arith
  count_le q p (x ∷ xs) h = ground (arith, h x, count_le q p xs h)

  pub count-find-none : (p : A → Bool) (xs : List A) → find p xs ≡ none → count p xs ≡ 0
  unfolding count find
  count-find-none p [] h = refl
  count-find-none p (x ∷ xs) h = ground (arith, count-find-none p xs)

  pub count-find-some : (p : A → Bool) (xs : List A) {x : A} → find p xs ≡ some x → 1 ≤ count p xs
  unfolding count find
  count-find-some p (y ∷ xs) {x} h = ground (arith, count-find-some p xs {x = x})
  count-find-some p [] h = ground arith

  pub find-true : (p : A → Bool) (xs : List A) {x : A} → find p xs ≡ some x → p x ≡ true
  unfolding find
  find-true p (y ∷ xs) {x} h = ground (arith, find-true p xs {x = x})
  find-true p [] h = ground arith

  pub find-All {κ} :
      (P : A → Type κ) (p : A → Bool) (xs : List A) {x : A} → All P xs → find p xs ≡ some x → P x
  unfolding find
  find-All P p [] {x} a h = ground arith
  find-All P p (y ∷ xs) {x} a h = go (p y) h (find-All P p xs a.1)
    where
      go :
          (b : Bool) → (if b then some y else find p xs) ≡ some x → (find p xs ≡ some x → P x) → P x
      go true k ih = subst P (ap (get_or y) k) a.0
      go false k ih = ih k

  pub All-append {κ} : (P : A → Type κ) (xs ys : List A) → All P xs → All P ys → All P (xs ++ ys)
  All-append P [] ys hx hy = hy
  All-append P (x ∷ xs) ys hx hy = (hx.0, All-append P xs ys hx.1 hy)

  pub All-update {κ} :
      (P : A → Type κ) (p : A → Bool) (f : A → A) (xs : List A)
      → All (λ x. p x ≡ true → P x → P (f x)) xs
      → All P xs
      → All P (update p f xs)
  unfolding update
  All-update P p f [] h a = a
  All-update P p f (x ∷ xs) h a = (go (p x) refl, All-update P p f xs h.1 a.1)
    where
      go : (b : Bool) → p x ≡ b → P (if b then f x else x)
      go true e = h.0 e a.0
      go false e = a.0

  pub All-of {κ} : (P : A → Type κ) (xs : List A) → ((x : A) → P x) → All P xs
  All-of P [] h = tt
  All-of P (x ∷ xs) h = (h x, All-of P xs h)

  pub All-weaken {κ κ'} :
      (P : A → Type κ) (Q : A → Type κ') (xs : List A) → ((x : A) → P x → Q x) → All P xs → All Q xs
  All-weaken P Q [] h a = tt
  All-weaken P Q (x ∷ xs) h a = (h x a.0, All-weaken P Q xs h a.1)

  pub first_by-true :
      (before : A → A → Bool) (p : A → Bool) (xs : List A) {x : A}
      → first_by before p xs ≡ some x
      → p x ≡ true
  unfolding first_by
  first_by-true before p [] {x} h = ground arith
  first_by-true before p (y ∷ xs) {x} h =
      go (first_by before p xs) (first_by-true before p xs {x = x}) h
    where
      go :
          (best : Option A)
          → (best ≡ some x → p x ≡ true)
          → (if p y then choose before y best else best) ≡ some x
          → p x ≡ true
      go none ih k = ground arith
      go (some z) ih k = ground arith

  pub first_by-none :
      (before : A → A → Bool) (p : A → Bool) (xs : List A)
      → first_by before p xs ≡ none
      → count p xs ≡ 0
  unfolding first_by count
  first_by-none before p [] h = refl
  first_by-none before p (y ∷ xs) h = go (first_by before p xs) (first_by-none before p xs) h
    where
      go :
          (best : Option A)
          → (best ≡ none → count p xs ≡ 0)
          → (if p y then choose before y best else best) ≡ none
          → (if p y then 1 else 0) + count p xs ≡ 0
      go none ih k = ground arith
      go (some z) ih k = ground arith

  -- An update adds at most the rows that it meets.
  pub count-update_add :
      (q p : A → Bool) (f : A → A) (xs : List A) → count q (update p f xs) ≤ count q xs + count p xs
  unfolding count update
  count-update_add q p f [] = omega arith
  count-update_add q p f (x ∷ xs) = ground (arith, count-update_add q p f xs)
