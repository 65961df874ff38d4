-- ===== src/Artifacts/Files/Names.antt =====
-- Parts with different numbers have different names.
use backup_telebot.Prelude.{
  ℕ, zero, suc, ◌+◌, ◌-◌, ◌*◌, ◌/◌, ◌%◌, ◌<◌, ◌≡◌, ◌≢◌, refl, sym, ap, ◌∙◌, arith, Bool, true,
  false, ltb, if◌then◌else◌, [], ◌∷◌, ◌++◌, length,
}
use backup_telebot.Paths.Text.{Text, text_eq}
use backup_telebot.Artifacts.Files.{drop, digits, decimal, zeros, padded, part_name}

-- The number that a text of digits writes, after the digits of `n`.
unfoldable number_of : ℕ → Text → ℕ
number_of n [] = n
number_of n (d ∷ ds) = number_of (n * 10 + (d - b'0')) ds

number_of-append : (n : ℕ) (s t : Text) → number_of n (s ++ t) ≡ number_of (number_of n s) t
unfolding number_of
number_of-append n [] t = refl
number_of-append n (d ∷ s) t = number_of-append (n * 10 + (d - b'0')) s t

number_of-digits : (fuel n : ℕ) → n < fuel → number_of 0 (digits fuel n) ≡ n
unfolding number_of digits
number_of-digits zero n h = omega (arith, h)
number_of-digits (suc fuel) n h = go (ltb n 10) refl (number_of-digits fuel (n / 10))
  where
    go :
        (b : Bool)
        → ltb n 10 ≡ b
        → (n / 10 < fuel → number_of 0 (digits fuel (n / 10)) ≡ n / 10)
        → number_of 0 (if b then (b'0' + n) ∷ [] else digits fuel (n / 10) ++ (b'0' + n % 10) ∷ [])
          ≡ n
    go true e ih = omega arith
    go false e ih =
        rw
          (
            number_of-append 0 (digits fuel (n / 10)) ((b'0' + n % 10) ∷ []),
            ih (ground (arith, e, h)),
          )
          (omega arith)

number_of-zeros : (n : ℕ) → number_of 0 (zeros n) ≡ 0
unfolding number_of zeros
number_of-zeros zero = refl
number_of-zeros (suc n) = number_of-zeros n

number_of-padded : (width n : ℕ) → number_of 0 (padded width n) ≡ n
unfolding padded decimal
number_of-padded width n =
    rw
      (
        number_of-append 0 (zeros (width - length (digits (suc n) n))) (digits (suc n) n),
        number_of-zeros (width - length (digits (suc n) n)),
      )
      (number_of-digits (suc n) n (omega arith))

drop-append : (s t : Text) → drop (length s) (s ++ t) ≡ t
unfolding drop
drop-append [] t = refl
drop-append (c ∷ s) t = drop-append s t

pub text_eq-same : (s t : Text) → text_eq s t ≡ true → s ≡ t
text_eq-same [] [] h = refl
text_eq-same [] (d ∷ t) h = ground (arith, h)
text_eq-same (c ∷ s) [] h = ground (arith, h)
text_eq-same (c ∷ s) (d ∷ t) h =
    let head : c ≡ d = ground (arith, h) in
    let tail : s ≡ t = text_eq-same s t (ground (arith, h)) in λ i. head i ∷ tail i

after_dot : (t : Text) → number_of 0 (drop 5 (b'.' ∷ b'p' ∷ b'a' ∷ b'r' ∷ b't' ∷ t)) ≡ number_of 0 t
unfolding drop
after_dot t = refl

pub part_name-other :
    (filename : Text) (width m n : ℕ)
    → m ≢ n
    → text_eq (part_name filename width m) (part_name filename width n) ≡ false
unfolding part_name
part_name-other filename width m n h =
    go (text_eq (part_name filename width m) (part_name filename width n)) refl
  where
    tail : ℕ → Text
    tail k = b'.' ∷ b'p' ∷ b'a' ∷ b'r' ∷ b't' ∷ padded width k

    number : ℕ → ℕ
    number k = number_of 0 (drop 5 (drop (length filename) (filename ++ tail k)))

    number_lem : (k : ℕ) → number k ≡ k
    number_lem k =
        rw (drop-append filename (tail k)) (after_dot (padded width k) ∙ number_of-padded width k)

    go :
        (b : Bool)
        → text_eq (part_name filename width m) (part_name filename width n) ≡ b
        → text_eq (part_name filename width m) (part_name filename width n) ≡ false
    go false e = e
    go true e = absurd (
        h (
          sym (number_lem m)
          ∙ ap (λ s. number_of 0 (drop 5 (drop (length filename) s))) (text_eq-same _ _ e)
          ∙ number_lem n))
