-- ===== src/Jobs/Lease/Valid.antt =====
-- Taking, extending and dropping a lease keeps the run table valid.
use backup_telebot.Prelude.{
  &&_right, ℕ, ◌≡◌, refl, String, Bool, true, Option, none, some, List, arith, inl, inr, ◌⊎◌,
  update, &&_left, All-of, All-weaken, In, In-unique, first_by, first_by-In, first_by-true,
}
use backup_telebot.Domain.{RunStatus, status_in}
use backup_telebot.Store.{Run, Db, has_id, is_active, active_statuses}
use backup_telebot.Store.Integrity.{IsValid, Safe, update-IsValid}
use backup_telebot.Jobs.Lease.{
  is_unlocked, claim, claim_cancel_requested, renew, release, take_lease, extend_lease, drop_lease,
  is_claimable, is_cancellable, is_held_by, lease_to, created_before, updated_before,
}

-- A lease goes to the selected run, and only an active run is selected.
take_lease-Safe :
    (owner : String) (n now : ℕ) (p : Run → Bool) (r x : Run)
    → is_active r ≡ true
    → (p x ≡ true → x ≡ r)
    → Safe p (take_lease owner n now) x
take_lease-Safe owner n now p r x a same = record {
  keeps_id = refl;
  keeps_profile = refl;
  keeps_trigger = refl;
  keeps_slot = refl;
  revives_none = λ h k. k;
  keeps_consistent = λ h c. ground (arith, same h, c.ended, a);
}

give-IsValid :
    (owner : String) (n now : ℕ) (r : Run) (db : Db)
    → IsValid db
    → In r db.runs
    → is_active r ≡ true
    → IsValid (record db { runs = update (has_id r.id) (take_lease owner n now) db.runs })
give-IsValid owner n now r db v i a =
    update-IsValid (has_id r.id) (take_lease owner n now) db
      (All-weaken (λ x. has_id r.id x ≡ true → x ≡ r) (Safe (has_id r.id) (take_lease owner n now))
        db.runs (λ x same. take_lease-Safe owner n now (has_id r.id) r x a same)
        (In-unique (has_id r.id) db.runs (v.id_once r.id) i (ground arith)))
      v

-- What `statuses` must be for a claim to touch active runs only.
abbrev pub AreActive : List RunStatus → Type 0
AreActive statuses =
    (s : RunStatus) → status_in statuses s ≡ true → status_in active_statuses s ≡ true

claimable-active :
    (statuses : List RunStatus) (now : ℕ) (db : Db) (r : Run)
    → AreActive statuses
    → is_claimable statuses now db.deliveries r ≡ true
    → is_active r ≡ true
unfolding is_claimable
claimable-active statuses now db r h k = h r.status (&&_left _ _ k)

cancellable-active : (now : ℕ) (r : Run) → is_cancellable now r ≡ true → is_active r ≡ true
unfolding is_cancellable
cancellable-active now r k = &&_left _ _ k

module _ (owner : String) (n now : ℕ) (db : Db) (v : IsValid db) (locked : ℕ → Bool) where
  pub claim-IsValid :
      (statuses : List RunStatus)
      → AreActive statuses
      → IsValid (claim owner n statuses locked now db).1
  unfolding claim
  claim-IsValid statuses h =
      go
        (first_by created_before (is_unlocked locked (is_claimable statuses now db.deliveries))
          db.runs)
        refl
    where
      go :
          (o : Option Run)
          → first_by created_before
              (is_unlocked locked (is_claimable statuses now db.deliveries))
              db.runs
            ≡ o
          → IsValid (lease_to owner n now o db).1
      go none e = v
      go (some r) e = give-IsValid owner n now r db v (first_by-In created_before _ db.runs e) (
          claimable-active statuses now db r h
            (&&_right _ _ (first_by-true created_before _ db.runs e)))

  pub claim_cancel_requested-IsValid : IsValid (claim_cancel_requested owner n locked now db).1
  unfolding claim_cancel_requested
  claim_cancel_requested-IsValid =
      go (first_by updated_before (is_unlocked locked (is_cancellable now)) db.runs) refl
    where
      go :
          (o : Option Run)
          → first_by updated_before (is_unlocked locked (is_cancellable now)) db.runs ≡ o
          → IsValid (lease_to owner n now o db).1
      go none e = v
      go (some r) e =
          give-IsValid owner n now r db v (first_by-In updated_before _ db.runs e)
            (cancellable-active now r (&&_right _ _ (first_by-true updated_before _ db.runs e)))

module _ (owner : String) (n now : ℕ) (db : Db) (v : IsValid db) where
  pub renew-IsValid : (run_id : ℕ) → IsValid (renew run_id owner n now db).1
  unfolding renew
  renew-IsValid run_id =
      update-IsValid (is_held_by run_id owner) (extend_lease n now) db
        (All-of (Safe (is_held_by run_id owner) (extend_lease n now)) db.runs (λ r. extend-Safe r))
        v
    where
      extend-Safe : (r : Run) → Safe (is_held_by run_id owner) (extend_lease n now) r
      extend-Safe r = record {
        keeps_id = refl;
        keeps_profile = refl;
        keeps_trigger = refl;
        keeps_slot = refl;
        revives_none = λ h k. k;
        keeps_consistent =
            λ h c. record { ended = c.ended; released = c.released; closed = c.closed };
      }

  drop-Safe : (p : Run → Bool) (r : Run) → Safe p drop_lease r
  drop-Safe p r = record {
    keeps_id = refl;
    keeps_profile = refl;
    keeps_trigger = refl;
    keeps_slot = refl;
    revives_none = λ h k. k;
    keeps_consistent = λ h c. record { ended = c.ended; released = λ _. refl; closed = c.closed };
  }

  release_cases :
      (run : Run)
      → ((release run owner db).1 ≡ db)
        ⊎ ((release run owner db).1
            ≡ record db { runs = update (has_id run.id) drop_lease db.runs })
  unfolding release
  release_cases run = ground arith

  pub release-IsValid : (run : Run) → IsValid (release run owner db).1
  release-IsValid run = elim (release_cases run) [
    | inl same ↦ rw same v
    | inr dropped ↦ rw dropped (
        update-IsValid (has_id run.id) drop_lease db
          (All-of (Safe (has_id run.id) drop_lease) db.runs (drop-Safe (has_id run.id))) v)
  ]
