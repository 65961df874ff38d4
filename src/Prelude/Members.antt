-- ===== src/Prelude/Members.antt =====
-- The rows that stand in a table, and the search for one.
use Prim.Native.Nat.{◌≤◌}
use mathlib.Core.Path.{◌≡◌, refl, subst}
use mathlib.Core.Logic.{◌⊎◌, inl, inr}
use mathlib.Core.Bool.{Bool, true, false}
use mathlib.Core.List.{List, [], ◌∷◌}
use mathlib.Core.Option.{Option, none, some}
use native.Mathlib.Omega.{arith}
use backup_telebot.Prelude.Tests.{if◌then◌else◌}
use backup_telebot.Prelude.Lists.{first_by-none, choose, find, count, All, first_by, choose}

module _ {A : Type 0} where
  -- A row of the table.
  abbrev pub In : A → List A → Type 0
  In r [] = ⊥
  In r (x ∷ xs) = (x ≡ r) ⊎ In r xs

  pub In-All {κ} : (P : A → Type κ) (xs : List A) {r : A} → In r xs → All P xs → P r
  In-All P [] i a = absurd i
  In-All P (x ∷ xs) (inl e) a = subst P e a.0
  In-All P (x ∷ xs) (inr i) a = In-All P xs i a.1

  pub In-count : (p : A → Bool) (xs : List A) {r : A} → In r xs → p r ≡ true → 1 ≤ count p xs
  unfolding count
  In-count p [] i h = absurd i
  In-count p (x ∷ xs) (inl e) h = rw (e, h) (omega arith)
  In-count p (x ∷ xs) (inr i) h = omega (arith, In-count p xs i h)

  -- In a table with one row that passes a test, what passes it is that row.
  pub In-unique :
      (p : A → Bool) (xs : List A) {r : A}
      → count p xs ≤ 1
      → In r xs
      → p r ≡ true
      → All (λ x. p x ≡ true → x ≡ r) xs
  unfolding count
  In-unique p [] c i h = absurd i
  In-unique p (x ∷ xs) {r} c (inl e) h = (λ _. e, none_left)
    where
      zero_left : count p xs ≡ 0
      zero_left = let q : p x ≡ true = rw e h in ground (arith, q)

      none_of : (ys : List A) → count p ys ≡ 0 → All (λ y. p y ≡ true → y ≡ r) ys
      none_of [] k = tt
      none_of (y ∷ ys) k = (λ q. absurd (ground (arith, q)), none_of ys (ground arith))

      none_left : All (λ y. p y ≡ true → y ≡ r) xs
      none_left = none_of xs zero_left
  In-unique p (x ∷ xs) {r} c (inr i) h =
      (λ q. absurd (ground (arith, q, In-count p xs i h)), In-unique p xs (ground arith) i h)

  pub find-In : (p : A → Bool) (xs : List A) {r : A} → find p xs ≡ some r → In r xs
  unfolding find
  find-In p [] h = cc
  find-In p (x ∷ xs) {r} h = ground (arith, find-In p xs {r = r})

  pub first_by-In :
      (before : A → A → Bool) (p : A → Bool) (xs : List A) {x : A}
      → first_by before p xs ≡ some x
      → In x xs
  unfolding first_by
  first_by-In before p [] h = cc
  first_by-In before p (y ∷ xs) {x} h =
      go (first_by before p xs) (first_by-In before p xs {x = x}) h
    where
      go :
          (best : Option A)
          → (best ≡ some x → In x xs)
          → (if p y then choose before y best else best) ≡ some x
          → (y ≡ x) ⊎ In x xs
      go none ih k = ground arith
      go (some z) ih k = ground arith

  -- The row that `first_by` picks has none before it, for a strict order.
  pub first_by-least :
      (before : A → A → Bool) (p : A → Bool) (xs : List A) {x : A}
      → ((a b : A) → before a b ≡ true → before b a ≡ false)
      → ((a b c : A) → before a b ≡ false → before b c ≡ false → before a c ≡ false)
      → first_by before p xs ≡ some x
      → (w : A) → In w xs
      → p w ≡ true
      → before w x ≡ false
  unfolding first_by
  first_by-least before p [] asym trans h w i q = absurd i
  first_by-least before p (y ∷ xs) {x} asym trans h w i q =
      go (first_by before p xs) (λ z e j. first_by-least before p xs {x = z} asym trans e w j q)
        (first_by-none before p xs) h i
    where
      go :
          (best : Option A)
          → ((z : A) → best ≡ some z → In w xs → before w z ≡ false)
          → (best ≡ none → count p xs ≡ 0)
          → (if p y then choose before y best else best) ≡ some x
          → (y ≡ w) ⊎ In w xs
          → before w x ≡ false
      go none ih empty_rest k (inl e) = ground (arith, asym w w)
      go none ih empty_rest k (inr j) = absurd (omega (arith, In-count p xs j q, empty_rest refl))
      go (some z) ih empty_rest k (inl e) = ground (arith, asym w w, asym z y)
      go (some z) ih empty_rest k (inr j) = ground (arith, ih z refl j, trans w z y)
