-- ===== src/Jobs/Lease/Claim.antt =====
-- Which run a claim hands out: one that was claimable, and the earliest of those that are not locked;
-- and none only if there is none.
use backup_telebot.Prelude.{
  Bool, [], ◌∷◌, ◌&&◌, ℕ, ◌≡◌, refl, ◌⊎◌, inl, inr, String, true, false, Option, none, some, List,
  arith, update, count, In, first_by, first_by-In, first_by-true, first_by-none, first_by-least,
}
use backup_telebot.Domain.{RunStatus}
use backup_telebot.Store.{Run, Db, has_id}
use backup_telebot.Jobs.Lease.{
  is_unlocked, claim, claim_cancel_requested, lease_to, take_lease, is_claimable, is_cancellable,
  is_free, created_before, updated_before,
}

abbrev pub leased : String → ℕ → ℕ → Run → Db → Db
leased owner n now r db = record db { runs = update (has_id r.id) (take_lease owner n now) db.runs }

created_before-asym : (a b : Run) → created_before a b ≡ true → created_before b a ≡ false
created_before-asym a b h = ground arith

created_before_trans :
    (a b c : Run)
    → created_before a b ≡ false
    → created_before b c ≡ false
    → created_before a c ≡ false
created_before_trans a b c h k = ground arith

none_before :
    (p q : Run → Bool) (runs : List Run)
    → ((w : Run) → In w runs → p w ≡ true → q w ≡ false)
    → count (λ w. p w && q w) runs ≡ 0
unfolding count
none_before p q [] h = refl
none_before p q (r ∷ rest) h =
    ground (arith, h r (inl refl), none_before p q rest (λ w i. h w (inr i)))

module _ (owner : String) (n : ℕ) (statuses : List RunStatus) (locked : ℕ → Bool) (now : ℕ)
    (db : Db) where
  abbrev pub Claims : Option Run × Db → Type 0
  Claims p =
      ((p.1 ≡ db)
        × (p.0 ≡ none)
        × (count (is_unlocked locked (is_claimable statuses now db.deliveries)) db.runs ≡ 0))
      ⊎ ((r : Run) × (p.1 ≡ leased owner n now r db)
          × In r db.runs
          × (is_unlocked locked (is_claimable statuses now db.deliveries) r ≡ true)
          × (p.0 ≡ some (take_lease owner n now r))
          × (count
                (λ w.
                  is_unlocked locked (is_claimable statuses now db.deliveries) w
                  && created_before w r)
                db.runs
              ≡ 0))

  -- What a claim hands out, among the runs that no other transaction has locked. Either none of them
  -- is claimable, and nothing changes; or it hands out one that was claimable, with the caller's lease
  -- on it from now, and no claimable one of them stands before it in the order of creation.
  pub claim-Claims : Claims (claim owner n statuses locked now db)
  unfolding claim
  claim-Claims =
      go
        (first_by created_before (is_unlocked locked (is_claimable statuses now db.deliveries))
          db.runs)
        refl
    where
      go :
          (o : Option Run)
          → first_by created_before
              (is_unlocked locked (is_claimable statuses now db.deliveries))
              db.runs
            ≡ o
          → Claims (lease_to owner n now o db)
      go none e = inl (refl, refl, first_by-none created_before _ db.runs e)
      go (some r) e = inr (
        r,
        refl,
        first_by-In created_before _ db.runs e,
        first_by-true created_before _ db.runs e,
        refl,
        none_before (is_unlocked locked (is_claimable statuses now db.deliveries))
            (λ w. created_before w r) db.runs
            (first_by-least created_before _ db.runs created_before-asym created_before_trans e),
      )

  claimable-free :
      (r : Run)
      → is_unlocked locked (is_claimable statuses now db.deliveries) r ≡ true
      → is_free now r ≡ true
  unfolding is_claimable
  claimable-free r k = ground (arith, k)

  pub claim_cases :
      let p = claim owner n statuses locked now db in
      (p.1 ≡ db)
      ⊎ ((r : Run) × (p.1 ≡ leased owner n now r db)
          × In r db.runs
          × (is_free now r ≡ true)
          × (p.0 ≡ some (take_lease owner n now r)))
  claim_cases = elim claim-Claims [
    | inl (same, _, _) ↦ inl same
    | inr (r, same, i, k, got, _) ↦ inr (r, same, i, claimable-free r k, got)
  ]

module _ (owner : String) (n : ℕ) (locked : ℕ → Bool) (now : ℕ) (db : Db) where
  cancellable-free :
      (r : Run) → is_unlocked locked (is_cancellable now) r ≡ true → is_free now r ≡ true
  unfolding is_cancellable
  cancellable-free r k = ground (arith, k)

  pub claim_cancel_cases :
      let p = claim_cancel_requested owner n locked now db in
      (p.1 ≡ db)
      ⊎ ((r : Run) × (p.1 ≡ leased owner n now r db)
          × In r db.runs
          × (is_free now r ≡ true)
          × (p.0 ≡ some (take_lease owner n now r)))
  unfolding claim_cancel_requested
  claim_cancel_cases =
      go (first_by updated_before (is_unlocked locked (is_cancellable now)) db.runs) refl
    where
      go :
          (o : Option Run)
          → first_by updated_before (is_unlocked locked (is_cancellable now)) db.runs ≡ o
          → let p = lease_to owner n now o db in
            (p.1 ≡ db)
            ⊎ ((r : Run) × (p.1 ≡ leased owner n now r db)
                × In r db.runs
                × (is_free now r ≡ true)
                × (p.0 ≡ some (take_lease owner n now r)))
      go none e = inl refl
      go (some r) e = inr (
        r,
        refl,
        first_by-In updated_before _ db.runs e,
        cancellable-free r
            (first_by-true updated_before (is_unlocked locked (is_cancellable now)) db.runs e),
        refl,
      )
