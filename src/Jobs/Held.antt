-- ===== src/Jobs/Held.antt =====
-- A run that a worker holds by a lease (src/pipeline/jobs.py), and what an update or an insertion
-- must respect for it to stay held.
pub mod Queue
pub mod Workers
use backup_telebot.Prelude.{
  ap, count, count-append, count-update_same, ℕ, suc, ◌≡◌, ◌≢◌, refl, sym, subst, ◌≤◌, ◌<◌, ◌⊎◌,
  inl, inr, String, Bool, true, false, ◌&&◌, Option, none, some, List, [], ◌∷◌, ◌++◌, arith, ◌==◌,
  eq_iff, str_eq, is_none, holds_text, &&_left, &&_right, update, find, find-In, find-true,
  first_by, first_by-In, first_by-true, All, All-of, All-weaken, All-append, All-update, In, In-All,
  Option-cases,
}
use backup_telebot.Domain.{RunTrigger, RunStatus}
use backup_telebot.Store.{Run, Db, has_id, is_active, insert_run}
use backup_telebot.Store.Integrity.{insert_run-Inserts}
use backup_telebot.Jobs.Lease.{is_free}

-- The lease of a run, as its worker `owner` has taken or renewed it.
pub record IsLeased (owner : String) (until : ℕ) (r : Run) : Type 0 where
  pub owned : r.lease_owner ≡ some owner
  pub expires : r.lease_expires_at ≡ some until
  pub active : is_active r ≡ true

abbrev pub RowIsHeld : String → ℕ → ℕ → Run → Type 0
RowIsHeld owner until run_id r = has_id run_id r ≡ true → IsLeased owner until r

-- The run is in the table, and held.
pub record IsHeld (owner : String) (until : ℕ) (run_id : ℕ) (db : Db) : Type 0 where
  pub known : run_id < db.next_id
  pub present : 1 ≤ count (has_id run_id) db.runs
  pub held : All (RowIsHeld owner until run_id) db.runs

module _ (owner : String) (until run_id : ℕ) where
  pub IsHeld-rows :
      (db out : Db)
      → IsHeld owner until run_id db
      → out.next_id ≡ db.next_id
      → count (has_id run_id) out.runs ≡ count (has_id run_id) db.runs
      → All (RowIsHeld owner until run_id) out.runs
      → IsHeld owner until run_id out
  IsHeld-rows db out h next same rows = record {
    known = rw next h.known;
    present = rw same h.present;
    held = rows;
  }

  -- No update that keeps the numbers loses a row.
  pub count-kept :
      (p : Run → Bool) (f : Run → Run) (runs : List Run)
      → ((r : Run) → (f r).id ≡ r.id)
      → count (has_id run_id) (update p f runs) ≡ count (has_id run_id) runs
  count-kept p f runs keeps =
      count-update_same (has_id run_id) p f runs
        (All-of _ runs (λ r _. ap (λ i. i == run_id) (keeps r)))

  -- An update that misses the held run, or leaves its lease and its life, keeps it held.
  pub held-update :
      (p : Run → Bool) (f : Run → Run) (runs : List Run)
      → ((r : Run) → (f r).id ≡ r.id)
      → ((r : Run) → p r ≡ true → IsLeased owner until r → IsLeased owner until (f r))
      → All (RowIsHeld owner until run_id) runs
      → All (RowIsHeld owner until run_id) (update p f runs)
  held-update p f runs keeps hold rows =
      All-update (RowIsHeld owner until run_id) p f runs
        (All-of _ runs
          (λ r h row same. hold r h (row (subst (λ i. (i == run_id) ≡ true) (keeps r) same))))
        rows

  pub IsHeld-append :
      (r : Run) (db out : Db)
      → IsHeld owner until run_id db
      → r.id ≡ db.next_id
      → insert_run r db ≡ some out
      → IsHeld owner until run_id out
  IsHeld-append r db out h i e = rw (insert_run-Inserts r db e).rows (record {
    known = omega (arith, h.known);
    present = omega (arith, h.present, count-append (has_id run_id) db.runs (r ∷ []));
    held =
        All-append (RowIsHeld owner until run_id) db.runs (r ∷ []) h.held
          ((λ same. absurd (ground (arith, same, i, h.known))), tt);
  })

  -- A free run is not the held one.
  pub free-ne-held :
      (now : ℕ) (r : Run) → now ≤ until → is_free now r ≡ true → IsLeased owner until r → ⊥
  free-ne-held now r early free l = ground (arith, l.owned, l.expires)

  pub foreign-ne-held :
      (other : String) (r : Run)
      → other ≢ owner
      → holds_text r.lease_owner other ≡ true
      → IsLeased owner until r
      → ⊥
  foreign-ne-held other r ne h l = ne (sym ((eq_iff owner other).0 (rw l.owned at h)))
