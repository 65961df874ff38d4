-- ===== src/Delivery/Round/Rows.antt =====
-- The rows with which a delivery round starts.
use backup_telebot.Prelude.{
  ◌⊎◌, inl, inr, ap, ℕ, ◌≤◌, ◌≡◌, refl, Bool, true, false, ◌&&◌, ◌||◌, not, List, [], ◌∷◌, ◌++◌,
  arith, ◌==◌, ==_iff, any, count, update, count-append, count-update_same, All-of, Bool-cases,
}
use backup_telebot.Domain.{is_pending, is_failed, is_succeeded}
use backup_telebot.Store.{Delivery}
use backup_telebot.Delivery.Round.{contains, revoke, has_row, missing_rows, prepared_rows}

abbrev pub is_row_of : ℕ → Delivery → Bool
is_row_of i d = d.admin_id == i

-- A row that a round would still serve or report, of a recipient who is not selected.
abbrev pub is_stray : List ℕ → Delivery → Bool
is_stray selected d =
    not (contains selected d.admin_id) && (is_pending d.status || is_failed d.status)

abbrev pub is_delivered_to : ℕ → Delivery → Bool
is_delivered_to i d = is_row_of i d && is_succeeded d.status

module _ (run_id t : ℕ) (rows : List Delivery) where
  missing-covers :
      (i : ℕ) (ids : List ℕ)
      → contains ids i ≡ true
      → has_row rows i ≡ false
      → 1 ≤ count (is_row_of i) (missing_rows run_id t rows ids)
  unfolding missing_rows count any
  missing-covers i [] h k = ground (arith, h)
  missing-covers i (j ∷ rest) h k = elim (Bool-cases (j == i)) [
    | inl e ↦ let row : has_row rows j ≡ false = rw ((==_iff j i).0 e) k in ground (arith, row, e)
    | inr e ↦ ground (arith, h, k, e, missing-covers i rest)
  ]

  missing-stray :
      (selected ids : List ℕ)
      → ((i : ℕ) → contains ids i ≡ true → contains selected i ≡ true)
      → count (is_stray selected) (missing_rows run_id t rows ids) ≡ 0
  unfolding missing_rows count any
  missing-stray selected [] h = refl
  missing-stray selected (j ∷ rest) h = ground (
    arith,
    h j (rw ((==_iff j j).1 refl) refl),
    missing-stray selected rest (λ i k. h i (ground (arith, k))),
  )

  missing-delivered :
      (i : ℕ) (ids : List ℕ) → count (is_delivered_to i) (missing_rows run_id t rows ids) ≡ 0
  unfolding missing_rows count
  missing-delivered i [] = refl
  missing-delivered i (j ∷ rest) = ground (arith, missing-delivered i rest)

has_row-count :
    (rows : List Delivery) (i : ℕ) → has_row rows i ≡ true → 1 ≤ count (is_row_of i) rows
unfolding has_row any count
has_row-count [] i h = ground (arith, h)
has_row-count (d ∷ rest) i h = ground (arith, h, has_row-count rest i)

revoke-stray :
    (selected : List ℕ) (rows : List Delivery)
    → count (is_stray selected) (update (λ _. true) (revoke selected) rows) ≡ 0
unfolding revoke update count
revoke-stray selected [] = refl
revoke-stray selected (d ∷ rest) = ground (arith, revoke-stray selected rest)

revoke-id : (selected : List ℕ) (d : Delivery) → (revoke selected d).admin_id ≡ d.admin_id
unfolding revoke
revoke-id selected d = ground arith

revoke-delivered :
    (selected : List ℕ) (i : ℕ) (d : Delivery)
    → is_delivered_to i (revoke selected d) ≡ is_delivered_to i d
unfolding revoke
revoke-delivered selected i d = ground arith

module _ (run_id t : ℕ) (selected : List ℕ) (rows : List Delivery) where
  -- The rows with which a round starts: every selected recipient has one; of a recipient who is not
  -- selected, none is pending or failed; and as many as before have been delivered to each recipient.
  pub prepared_rows_lem :
      (i : ℕ)
      → let out = prepared_rows run_id t selected rows in
        ((contains selected i ≡ false) ⊎ (1 ≤ count (is_row_of i) out))
        × (count (is_stray selected) out ≡ 0)
        × (count (is_delivered_to i) out ≡ count (is_delivered_to i) rows)
  unfolding prepared_rows
  prepared_rows_lem i = (covered, clean, kept)
    where
      old : List Delivery
      old = update (λ _. true) (revoke selected) rows

      fresh : List Delivery
      fresh = missing_rows run_id t rows selected

      same_rows : count (is_row_of i) old ≡ count (is_row_of i) rows
      same_rows =
          count-update_same (is_row_of i) (λ _. true) (revoke selected) rows
            (All-of _ rows (λ d _. ap (λ k. k == i) (revoke-id selected d)))

      covered : (contains selected i ≡ false) ⊎ (1 ≤ count (is_row_of i) (old ++ fresh))
      covered = elim (Bool-cases (contains selected i)) [
        | inr e ↦ inl e
        | inl e ↦ elim (Bool-cases (has_row rows i)) [
          | inl k ↦ inr (
              omega
                (arith, count-append (is_row_of i) old fresh, same_rows, has_row-count rows i k))
          | inr k ↦ inr (
              omega (
                arith,
                count-append (is_row_of i) old fresh,
                missing-covers run_id t rows i selected e k,
              ))
        ]
      ]

      clean : count (is_stray selected) (old ++ fresh) ≡ 0
      clean = omega (
        arith,
        count-append (is_stray selected) old fresh,
        revoke-stray selected rows,
        missing-stray run_id t rows selected selected (λ j k. k),
      )

      kept : count (is_delivered_to i) (old ++ fresh) ≡ count (is_delivered_to i) rows
      kept = omega (
        arith,
        count-append (is_delivered_to i) old fresh,
        missing-delivered run_id t rows i selected,
        count-update_same (is_delivered_to i) (λ _. true) (revoke selected) rows
            (All-of _ rows (λ d _. revoke-delivered selected i d)),
      )
