-- ===== src/Artifacts/Split/Reads.antt =====
-- The inner loop of `_split_artifact` reads what a part has room for (src/pipeline/finalize.py).
use backup_telebot.Prelude.{
  ℕ, zero, suc, ◌+◌, ◌-◌, ◌≤◌, ◌<◌, ◌≡◌, refl, ap, arith, min, Bool, true, false, not, ◌&&◌, ltb,
  if◌then◌else◌, [], ◌∷◌, ◌++◌, length,
}
use backup_telebot.Paths.Text.{is_empty}
use backup_telebot.Artifacts.Files.{Bytes, take, drop}
use backup_telebot.Artifacts.Split.{chunk_size, read_part}

take-nil : (n : ℕ) → take n [] ≡ []
unfolding take
take-nil zero = refl
take-nil (suc n) = refl

drop-nil : (n : ℕ) → drop n [] ≡ []
unfolding drop
drop-nil zero = refl
drop-nil (suc n) = refl

-- What is taken in two goes.
take-chunk :
    (c m : ℕ) (bs : Bytes)
    → c ≤ m
    → take c bs ++ take (m - length (take c bs)) (drop c bs) ≡ take m bs
unfolding take drop
take-chunk zero m bs h = let e : m - 0 ≡ m = omega arith in rw e refl
take-chunk (suc c) zero bs h = absurd (omega (arith, h))
take-chunk (suc c) (suc m) [] h = let e : suc m - 0 ≡ suc m = omega arith in rw e refl
take-chunk (suc c) (suc m) (b ∷ bs) h =
    let e : suc m - suc (length (take c bs)) ≡ m - length (take c bs) = omega arith in
    rw e (ap (λ t. b ∷ t) (take-chunk c m bs (omega (arith, h))))

drop-chunk : (c m : ℕ) (bs : Bytes) → c ≤ m → drop (m - length (take c bs)) (drop c bs) ≡ drop m bs
unfolding take drop
drop-chunk zero m bs h = let e : m - 0 ≡ m = omega arith in rw e refl
drop-chunk (suc c) zero bs h = absurd (omega (arith, h))
drop-chunk (suc c) (suc m) [] h = let e : suc m - 0 ≡ suc m = omega arith in rw e refl
drop-chunk (suc c) (suc m) (b ∷ bs) h =
    let e : suc m - suc (length (take c bs)) ≡ m - length (take c bs) = omega arith in
    rw e (drop-chunk c m bs (omega (arith, h)))

pub length-drop : (n : ℕ) (bs : Bytes) → length (drop n bs) ≡ length bs - n
unfolding drop
length-drop zero bs = omega arith
length-drop (suc n) [] = omega arith
length-drop (suc n) (b ∷ bs) = omega (arith, length-drop n bs)

pub length-take : (n : ℕ) (bs : Bytes) → length (take n bs) ≡ min n (length bs)
unfolding take
length-take zero bs = omega arith
length-take (suc n) [] = omega arith
length-take (suc n) (b ∷ bs) = omega (arith, length-take n bs)

start : (bs : Bytes) → ◌≡◌ {A = Bytes × Bytes} ([], bs) (take 0 bs, drop 0 bs)
unfolding take drop
start bs = refl

nothing :
    (n : ℕ) (bs : Bytes) → length bs ≡ 0 → ◌≡◌ {A = Bytes × Bytes} ([], bs) (take n bs, drop n bs)
nothing n [] h = rw (take-nil n, drop-nil n) refl
nothing n (b ∷ bs) h = absurd (omega (arith, h))

empty : (bs : Bytes) → is_empty bs ≡ true → length bs ≡ 0
empty [] h = refl
empty (b ∷ bs) h = ground (arith, h)

not_empty : (bs : Bytes) → is_empty bs ≡ false → 1 ≤ length bs
not_empty [] h = ground (arith, h)
not_empty (b ∷ bs) h = omega arith

-- Reading a part in chunks reads as many bytes as a part has room for, and leaves the rest.
pub read_part_lem :
    (fuel limit written : ℕ) (source : Bytes)
    → length source < fuel
    → read_part fuel limit written source
      ≡ (take (limit - written) source, drop (limit - written) source)
unfolding read_part
read_part_lem zero limit written source h = absurd (omega (arith, h))
read_part_lem (suc fuel) limit written source h =
    go (ltb written limit) refl (is_empty (take c source)) refl
      (read_part_lem fuel limit (written + length (take c source)) (drop c source))
  where
    c : ℕ
    c = min chunk_size (limit - written)

    more : Bytes × Bytes
    more = read_part fuel limit (written + length (take c source)) (drop c source)

    later :
        ltb written limit ≡ true → is_empty (take c source) ≡ false → length (drop c source) < fuel
    later e n =
        ground
          (arith, e, h, length-drop c source, length-take c source, not_empty (take c source) n)

    go :
        (b : Bool)
        → ltb written limit ≡ b
        → (n : Bool) → is_empty (take c source) ≡ n
        → (length (drop c source) < fuel
            → ◌≡◌ {A = Bytes × Bytes} more (
              take (limit - (written + length (take c source))) (drop c source),
              drop (limit - (written + length (take c source))) (drop c source),
            ))
        → ◌≡◌ {A = Bytes × Bytes}
            (if b && not n then (take c source ++ more.0, more.1) else ([], source))
            (take (limit - written) source, drop (limit - written) source)
    go false e n f ih =
        let none_left : limit - written ≡ 0 = ground (arith, e) in rw none_left (start source)
    go true e true f ih =
        nothing (limit - written) source
          (ground (arith, e, length-take c source, empty (take c source) f))
    go true e false f ih =
        let room : limit - (written + length (take c source))
            ≡ (limit - written) - length (take c source) =
          omega arith in
        rw (ih (later e f), room)
          (λ i. (
            take-chunk c (limit - written) source (omega arith) i,
            drop-chunk c (limit - written) source (omega arith) i,
          ))
