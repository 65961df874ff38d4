-- ===== src/Prelude/Rows.antt =====
-- Rows of a table that a filter keeps or drops.
use Prim.Native.Nat.{◌≤◌}
use mathlib.Core.Path.{◌≡◌, refl}
use mathlib.Core.Bool.{Bool, true, false, not}
use mathlib.Core.List.{List, [], ◌∷◌, ◌++◌}
use mathlib.Core.Option.{none, some}
use native.Mathlib.Omega.{arith}
use backup_telebot.Prelude.Lists.{find, keep, update, count}

module _ {ℓ} {A : Type ℓ} where
  -- What a filter drops is not found.
  pub find-keep-none : (p : A → Bool) (xs : List A) → find p (keep (λ x. not (p x)) xs) ≡ none
  unfolding find keep
  find-keep-none p [] = refl
  find-keep-none p (x ∷ xs) = ground (arith, find-keep-none p xs)

  -- A row at the end of a table without one like it is the one that is found.
  pub find-snoc :
      (p : A → Bool) (xs : List A) (y : A)
      → find p xs ≡ none
      → p y ≡ true
      → find p (xs ++ y ∷ []) ≡ some y
  unfolding find
  find-snoc p [] y h k = ground (arith, k)
  find-snoc p (x ∷ xs) y h k = ground (arith, find-snoc p xs y, h, k)

  -- A filter for one test keeps the first row of another that the first test spares.
  pub find-keep_other :
      (p q : A → Bool) (xs : List A)
      → ((x : A) → p x ≡ true → q x ≡ true)
      → find p (keep q xs) ≡ find p xs
  unfolding find keep
  find-keep_other p q [] h = refl
  find-keep_other p q (x ∷ xs) h = ground (arith, find-keep_other p q xs h, h x)

  pub find-snoc_other :
      (p : A → Bool) (xs : List A) (y : A) → p y ≡ false → find p (xs ++ y ∷ []) ≡ find p xs
  unfolding find
  find-snoc_other p [] y h = ground (arith, h)
  find-snoc_other p (x ∷ xs) y h = ground (arith, find-snoc_other p xs y h, h)

  -- An update of the rows of a test that they still pass is made on the row that is found.
  pub find-update :
      (p : A → Bool) (f : A → A) (xs : List A) {x : A}
      → ((y : A) → p (f y) ≡ p y)
      → find p xs ≡ some x
      → find p (update p f xs) ≡ some (f x)
  unfolding find update
  find-update p f [] h k = ground arith
  find-update p f (y ∷ ys) {x} h k = ground (arith, find-update p f ys {x = x} h, h y, k)

  pub count-keep_none : (p : A → Bool) (xs : List A) → count p (keep (λ x. not (p x)) xs) ≡ 0
  unfolding count keep
  count-keep_none p [] = refl
  count-keep_none p (x ∷ xs) = ground (arith, count-keep_none p xs)

  pub count-keep_le : (q p : A → Bool) (xs : List A) → count q (keep p xs) ≤ count q xs
  unfolding count keep
  count-keep_le q p [] = omega arith
  count-keep_le q p (x ∷ xs) = ground (arith, count-keep_le q p xs)

  -- A filter leaves the count of a test that it spares.
  pub count-keep_other :
      (q p : A → Bool) (xs : List A)
      → ((x : A) → q x ≡ true → p x ≡ true)
      → count q (keep p xs) ≡ count q xs
  unfolding count keep
  count-keep_other q p [] h = refl
  count-keep_other q p (x ∷ xs) h = ground (arith, count-keep_other q p xs h, h x)
