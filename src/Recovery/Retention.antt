-- ===== src/Recovery/Retention.antt =====
-- What the retention of failed artifacts removes and keeps (src/pipeline/recovery.py).
use backup_telebot.Prelude.{
  ◌⊎◌, ℕ, ◌≡◌, refl, arith, Bool, true, false, ◌&&◌, ◌==◌, if◌then◌else◌, is_some, List, [], ◌∷◌,
  any, All,
}
use backup_telebot.Domain.{RunStatus, status_eq}
use backup_telebot.Store.{Run, Db}
use backup_telebot.Recovery.{
  Spool, is_reached, visit, recorded, visit_all, cleanup_expired_failed_artifacts,
}

-- The retention of the artifact of a failed run has run out.
abbrev pub is_expired : ℕ → Run → Bool
is_expired now r =
    status_eq r.status RunStatus.failed
    && (is_some r.failed_artifact_cleanup_at && is_reached now r.failed_artifact_cleanup_at)

-- A row after a pass: the run and its state are the same; its directory is the same, unless its retention
-- had run out.
pub record IsKept (now : ℕ) (r k : Run) : Type 0 where
  pub id : k.id ≡ r.id
  pub status : k.status ≡ r.status
  pub lease : k.lease_owner ≡ r.lease_owner
  pub finished : k.finished_at ≡ r.finished_at
  pub directory : (is_expired now r ≡ true) ⊎ (k.pending_directory ≡ r.pending_directory)

visit-IsKept :
    (spool : Spool) (now retention : ℕ) (r : Run) → IsKept now r (visit spool now retention r).run
unfolding visit
visit-IsKept spool now retention r = record {
  id = ground arith;
  status = ground arith;
  lease = ground arith;
  finished = ground arith;
  directory = ground arith;
}

visit-removed :
    (spool : Spool) (now retention : ℕ) (r : Run)
    → (visit spool now retention r).is_removed ≡ true
    → is_expired now r ≡ true
unfolding visit
visit-removed spool now retention r h = ground (arith, h)

abbrev pub AreKept : ℕ → List Run → List Run → Type 0
AreKept now [] [] = Unit
AreKept now (r ∷ rs) (k ∷ ks) = IsKept now r k × AreKept now rs ks
AreKept now _ _ = ⊥

-- The run with the number has an artifact whose retention has run out.
abbrev pub is_expired_id : ℕ → List Run → ℕ → Bool
is_expired_id now runs id = any (λ r. (r.id == id) && is_expired now r) runs

later_expired :
    (now : ℕ) (r : Run) (rest : List Run) (removed : List ℕ)
    → All (λ i. is_expired_id now rest i ≡ true) removed
    → All (λ i. is_expired_id now (r ∷ rest) i ≡ true) removed
unfolding any
later_expired now r rest [] a = tt
later_expired now r rest (i ∷ removed) a =
    (ground (arith, a.0), later_expired now r rest removed a.1)

visit_all-kept :
    (spool : Spool) (now retention : ℕ) (rs : List Run) (db : Db)
    → AreKept now rs (visit_all spool now retention rs db).runs
unfolding visit_all
visit_all-kept spool now retention [] db = tt
visit_all-kept spool now retention (r ∷ rest) db =
    (visit-IsKept spool now retention r, visit_all-kept spool now retention rest _)

visit_all-removed :
    (spool : Spool) (now retention : ℕ) (rs : List Run) (db : Db)
    → All (λ i. is_expired_id now rs i ≡ true) (visit_all spool now retention rs db).removed
unfolding visit_all any
visit_all-removed spool now retention [] db = tt
visit_all-removed spool now retention (r ∷ rest) db =
    go (visit spool now retention r).is_removed refl (
      later_expired now r rest _
        (visit_all-removed spool now retention rest (recorded (visit spool now retention r) db)))
  where
    others : List ℕ
    others =
        (visit_all spool now retention rest (recorded (visit spool now retention r) db)).removed

    go :
        (b : Bool)
        → (visit spool now retention r).is_removed ≡ b
        → All (λ i. is_expired_id now (r ∷ rest) i ≡ true) others
        → All (λ i. is_expired_id now (r ∷ rest) i ≡ true) (if b then r.id ∷ others else others)
    go true e a = (ground (arith, visit-removed spool now retention r e), a)
    go false e a = a

-- A pass over the retained artifacts, whatever the file system answers: every run keeps its number, its
-- status, its lease and its end; it keeps its directory, too, unless it has failed and its retention had run
-- out by then; and each artifact that is removed belongs to such a run.
pub cleanup_expired_failed_artifacts-kept :
    (spool : Spool) (now retention : ℕ) (db : Db)
    → AreKept now db.runs (cleanup_expired_failed_artifacts spool now retention db).1.runs
      × All
          (λ i. is_expired_id now db.runs i ≡ true)
          (cleanup_expired_failed_artifacts spool now retention db).0
unfolding cleanup_expired_failed_artifacts
cleanup_expired_failed_artifacts-kept spool now retention db = (
  visit_all-kept spool now retention db.runs db,
  visit_all-removed spool now retention db.runs db,
)
