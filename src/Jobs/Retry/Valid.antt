-- ===== src/Jobs/Retry/Valid.antt =====
-- Retrying and purging a failed run keeps the run table valid: a resumed run is again the only
-- active one of its profile.
use backup_telebot.Prelude.{
  ℕ, ◌≡◌, refl, subst, ◌≤◌, leb→le, &&_left, &&_right, Bool, true, ◌⊎◌, inl, inr, Option, none,
  some, List, [], ◌∷◌, arith, update, All-of, all, count, leb, not, ◌||◌, Bool-cases, Option-cases,
  find, All-update, count-update_same,
}
use backup_telebot.Store.{
  may_manage, Error, User, Run, Db, has_id, is_active, is_active_of, in_slot,
}
use backup_telebot.Store.Integrity.{IsConsistent, IsValid, Safe, update-IsValid, runs-IsValid}
use backup_telebot.Jobs.Enqueue.{Request, enqueue_manual}
use backup_telebot.Jobs.Enqueue.Unique.{enqueue_manual-IsValid}
use backup_telebot.Jobs.Retry.{
  retry_failed, retry_run, purge_failed_artifact, index_holds, is_unchanged, resume, purge,
}

index_row :
    (whole : List Run) (p : ℕ) (r : Run)
    → is_active_of p r ≡ true
    → (not (is_active r) || leb (count (is_active_of r.profile_id) whole) 1) ≡ true
    → count (is_active_of p) whole ≤ 1
index_row whole p r a h =
    let e : r.profile_id ≡ p = ground (arith, a) in
    subst (λ i. count (is_active_of i) whole ≤ 1) e (ground (arith, a, h))

all-index :
    (whole : List Run) (p : ℕ) (runs : List Run)
    → all (λ r. not (is_active r) || leb (count (is_active_of r.profile_id) whole) 1) runs ≡ true
    → 1 ≤ count (is_active_of p) runs
    → count (is_active_of p) whole ≤ 1
unfolding all count
all-index whole p [] h k = absurd (omega arith)
all-index whole p (r ∷ rest) h k = elim (Bool-cases (is_active_of p r)) [
  | inl yes_active ↦ index_row whole p r yes_active (&&_left _ _ h)
  | inr no_active ↦ all-index whole p rest (&&_right _ _ h) (ground (arith, no_active))
]

-- The partial index says that each profile has one active run at most.
pub index_holds-active_once :
    (runs : List Run) (p : ℕ) → index_holds runs ≡ true → count (is_active_of p) runs ≤ 1
unfolding index_holds
index_holds-active_once runs p h = elim (Bool-cases (leb 1 (count (is_active_of p) runs))) [
  | inl some_active ↦ all-index runs p runs h (leb→le _ _ some_active)
  | inr no_active ↦ ground (arith, no_active)
]

module _ (run : Run) (now : ℕ) (db : Db) where
  abbrev resumed : Db
  resumed = record db { runs = update (is_unchanged run) (resume now) db.runs }

  resume-IsConsistent :
      (r : Run) → is_unchanged run r ≡ true → IsConsistent r → IsConsistent (resume now r)
  resume-IsConsistent r h c = record { ended = refl; released = λ k. cc; closed = λ k. cc }

  resumed-IsValid : IsValid db → index_holds resumed.runs ≡ true → IsValid resumed
  resumed-IsValid v h = record {
    active_once = λ p. index_holds-active_once resumed.runs p h;
    slot_once = λ p t s.
        rw
          (count-update_same (in_slot p t s) (is_unchanged run) (resume now) db.runs
            (All-of _ db.runs (λ r k. refl)))
          (v.slot_once p t s);
    id_once = λ i.
        rw
          (count-update_same (has_id i) (is_unchanged run) (resume now) db.runs
            (All-of _ db.runs (λ r k. refl)))
          (v.id_once i);
    id_fresh = λ i k.
        rw
          (count-update_same (has_id i) (is_unchanged run) (resume now) db.runs
            (All-of _ db.runs (λ r k. refl)))
          (v.id_fresh i k);
    consistent =
        All-update IsConsistent (is_unchanged run) (resume now) db.runs
          (All-of _ db.runs resume-IsConsistent) v.consistent;
  }

-- What a retry can do to the database: nothing, resume the run that the checks have read, or
-- request a new run of its profile.
module _ (actor : User) (q : Request) (verdict : Option Error) (run_id : ℕ) (seen db : Db) where
  -- What a retry of a known run does to the database.
  abbrev pub Retries : Run → Db → Type 0
  Retries run out =
      (out ≡ db)
      ⊎ ((index_holds (update (is_unchanged run) (resume q.now) db.runs) ≡ true)
          × (out.runs ≡ update (is_unchanged run) (resume q.now) db.runs)
          × (out.next_id ≡ db.next_id))
      ⊎ (out ≡ (enqueue_manual actor q run.profile_id seen db).1)

  pub retry_run_cases : (run : Run) → Retries run (retry_run actor q verdict run seen db).1
  unfolding retry_run
  retry_run_cases run = ground arith

  pub retry_failed_cases :
      let out = (retry_failed actor q verdict run_id seen db).1 in
      (out ≡ db) ⊎ ((run : Run) × (out ≡ (retry_run actor q verdict run seen db).1))
  unfolding retry_failed
  retry_failed_cases = elim (Option-cases (find (has_id run_id) seen.runs)) [
    | inl e ↦ inl (ground (arith, e))
    | inr (run, e) ↦ elim (Bool-cases (may_manage actor)) [
      | inl y ↦ inr (run, rw (y, e, retry_failed))
      | inr n ↦ inl (rw (n, retry_failed))
    ]
  ]

  retry_run-IsValid : (run : Run) → IsValid db → IsValid (retry_run actor q verdict run seen db).1
  retry_run-IsValid run v = elim (retry_run_cases run) [
    | inl same ↦ rw same v
    | inr (inl (h, same, next)) ↦
        runs-IsValid (resumed run q.now db) _ same next (resumed-IsValid run q.now db v h)
    | inr (inr same) ↦ rw same (enqueue_manual-IsValid actor q run.profile_id seen db v)
  ]

  pub retry_failed-IsValid : IsValid db → IsValid (retry_failed actor q verdict run_id seen db).1
  retry_failed-IsValid v = elim retry_failed_cases [
    | inl same ↦ rw same v
    | inr (run, same) ↦ rw same (retry_run-IsValid run v)
  ]

purge-Safe : (p : Run → Bool) (now : ℕ) (r : Run) → Safe p (purge now) r
purge-Safe p now r = record {
  keeps_id = refl;
  keeps_profile = refl;
  keeps_trigger = refl;
  keeps_slot = refl;
  revives_none = λ h k. k;
  keeps_consistent = λ h c. record { ended = c.ended; released = c.released; closed = c.closed };
}

module _ (actor : User) (verdict : Option Error) (run_id now : ℕ) (db : Db) where
  pub purge_cases :
      (o : Option Run)
      → find (has_id run_id) db.runs ≡ o
      → let out = (purge_failed_artifact actor verdict run_id now db).1 in
        (out ≡ db)
        ⊎ ((r : Run) × (o ≡ some r)
            × (out.runs ≡ update (has_id r.id) (purge now) db.runs)
            × (out.next_id ≡ db.next_id))
  unfolding purge_failed_artifact
  purge_cases none e = ground arith
  purge_cases (some run) e = ground arith

  pub purge_failed_artifact-IsValid :
      IsValid db → IsValid (purge_failed_artifact actor verdict run_id now db).1
  purge_failed_artifact-IsValid v = elim (purge_cases (find (has_id run_id) db.runs) refl) [
    | inl same ↦ rw same v
    | inr (r, e, same, next) ↦
        runs-IsValid (record db { runs = update (has_id r.id) (purge now) db.runs }) _ same next
          (update-IsValid (has_id r.id) (purge now) db
            (All-of (Safe (has_id r.id) (purge now)) db.runs (purge-Safe (has_id r.id) now)) v)
  ]
