-- ===== src/Store/Integrity.antt =====
-- What holds of the run table between two transactions: the unique keys of
-- src/database/models/backup_run.py, and how a run's lease and end follow its status.
use backup_telebot.Prelude.{
  ℕ, suc, ◌+◌, ◌≤◌, ◌≡◌, refl, ap, ◌⊎◌, Bool, true, false, none, some, List, [], ◌∷◌, ◌++◌, arith,
  ◌==◌, is_none, if◌then◌else◌, any, count, update, All, count-append, count-update_le,
  count-update_same, All-append, All-update, All-weaken,
}
use backup_telebot.Domain.{RunTrigger, RunStage}
use backup_telebot.Store.{Run, Db, has_id, is_active, is_active_of, in_slot, insert_run}

-- A run has an end exactly when its status is terminal; then nobody holds it and its stage says so.
pub record IsConsistent (r : Run) : Type 0 where
  pub ended : is_active r ≡ is_none r.finished_at
  pub released : is_active r ≡ false → r.lease_owner ≡ none
  pub closed : is_active r ≡ false → (r.stage ≡ RunStage.complete) ⊎ (r.stage ≡ RunStage.cleanup)

pub record IsValid (db : Db) : Type 0 where
  pub active_once : (p : ℕ) → count (is_active_of p) db.runs ≤ 1
  pub slot_once : (p : ℕ) (t : RunTrigger) (s : ℕ) → count (in_slot p t s) db.runs ≤ 1
  pub id_once : (i : ℕ) → count (has_id i) db.runs ≤ 1
  pub id_fresh : (i : ℕ) → db.next_id ≤ i → count (has_id i) db.runs ≡ 0
  pub consistent : All IsConsistent db.runs

-- An empty database is valid.
abbrev pub empty : Db
empty = record { next_id = 1; runs = []; profiles = []; deliveries = []; audit = [] }

pub empty-IsValid : IsValid empty
unfolding count
empty-IsValid = record {
  active_once = λ p. omega arith;
  slot_once = λ p t s. omega arith;
  id_once = λ i. omega arith;
  id_fresh = λ i h. refl;
  consistent = tt;
}

-- A row that passes no test on the table is the first of its kind.
pub count-any-false {ℓ} :
    {A : Type ℓ} (p : A → Bool) (xs : List A) → any p xs ≡ false → count p xs ≡ 0
unfolding any count
count-any-false p [] h = refl
count-any-false p (x ∷ xs) h = ground (arith, count-any-false p xs)

count-snoc {ℓ} :
    {A : Type ℓ} (p : A → Bool) (xs : List A) (x : A)
    → count p (xs ++ x ∷ []) ≡ count p xs + (if p x then 1 else 0)
unfolding count
count-snoc p xs x = rw count-append (omega arith)

-- Two equal tests of the profile's number.
active_of_eq :
    (p : ℕ) (r : Run) → is_active_of p r ≡ true → (r.profile_id ≡ p) × (is_active r ≡ true)
active_of_eq p r h = ground arith

in_slot_eq :
    (p : ℕ) (t : RunTrigger) (s : ℕ) (r : Run)
    → in_slot p t s r ≡ true
    → (r.profile_id ≡ p) × (r.trigger ≡ t) × (r.scheduled_for ≡ some s)
in_slot_eq p t s r h = ground arith

-- What a successful insertion has checked.
pub record Inserts (r : Run) (db out : Db) : Type 0 where
  pub rows : out ≡ record db { next_id = suc db.next_id; runs = db.runs ++ r ∷ [] }
  pub no_active : is_active r ≡ true → any (is_active_of r.profile_id) db.runs ≡ false
  pub no_slot :
      (s : ℕ) → r.scheduled_for ≡ some s → any (in_slot r.profile_id r.trigger s) db.runs ≡ false

pub insert_run-Inserts :
    (r : Run) (db : Db) {out : Db} → insert_run r db ≡ some out → Inserts r db out
unfolding insert_run
insert_run-Inserts r db {out} h = record {
  rows = ground arith;
  no_active = ground arith;
  no_slot = ground arith;
}

-- An accepted row that is consistent keeps the table valid.
pub insert_run-IsValid :
    (r : Run) (db : Db) {out : Db}
    → IsValid db
    → IsConsistent r
    → r.id ≡ db.next_id
    → insert_run r db ≡ some out
    → IsValid out
insert_run-IsValid r db {out} v c i h = rw inserted.rows (record {
  active_once = λ p. rw count-snoc (
      ground (
        arith,
        v.active_once p,
        count-any-false (is_active_of p) db.runs,
        active_of_eq p r,
        inserted.no_active,
      ));
  slot_once = λ p t s. rw count-snoc (
      ground (
        arith,
        v.slot_once p t s,
        count-any-false (in_slot p t s) db.runs,
        in_slot_eq p t s r,
        inserted.no_slot s,
      ));
  id_once = λ j. rw count-snoc (ground (arith, v.id_once j, v.id_fresh j));
  id_fresh = λ j le. rw count-snoc (ground (arith, v.id_fresh j));
  consistent = All-append IsConsistent db.runs (r ∷ []) v.consistent (c, tt);
})
  where
    inserted : Inserts r db out
    inserted = insert_run-Inserts r db h

-- The validity of a database is that of its runs.
pub runs-IsValid :
    (db out : Db) → out.runs ≡ db.runs → out.next_id ≡ db.next_id → IsValid db → IsValid out
runs-IsValid db out same next v = record {
  active_once = λ p. rw same (v.active_once p);
  slot_once = λ p t s. rw same (v.slot_once p t s);
  id_once = λ i. rw same (v.id_once i);
  id_fresh = λ i h. rw same (v.id_fresh i (rw (← next) h));
  consistent = rw same v.consistent;
}

-- What an update may do to a row that it meets.
pub record Safe (p : Run → Bool) (f : Run → Run) (r : Run) : Type 0 where
  pub keeps_id : (f r).id ≡ r.id
  pub keeps_profile : (f r).profile_id ≡ r.profile_id
  pub keeps_trigger : (f r).trigger ≡ r.trigger
  pub keeps_slot : (f r).scheduled_for ≡ r.scheduled_for
  pub revives_none : p r ≡ true → is_active (f r) ≡ true → is_active r ≡ true
  pub keeps_consistent : p r ≡ true → IsConsistent r → IsConsistent (f r)

in_slot-safe :
    (p : ℕ) (t : RunTrigger) (s : ℕ) (r r' : Run)
    → r'.profile_id ≡ r.profile_id
    → r'.trigger ≡ r.trigger
    → r'.scheduled_for ≡ r.scheduled_for
    → in_slot p t s r' ≡ in_slot p t s r
in_slot-safe p t s r r' h k l = rw (h, k, l)

active-safe :
    (i : ℕ) (r r' : Run)
    → r'.profile_id ≡ r.profile_id
    → (is_active r' ≡ true → is_active r ≡ true)
    → is_active_of i r' ≡ true
    → is_active_of i r ≡ true
active-safe i r r' same h a = ground arith

-- The keys that a safe update leaves as they are.
module _ (p : Run → Bool) (f : Run → Run) (db : Db) (safe : All (Safe p f) db.runs) where
  pub update-slots :
      (i : ℕ) (t : RunTrigger) (s : ℕ)
      → count (in_slot i t s) (update p f db.runs) ≡ count (in_slot i t s) db.runs
  update-slots i t s = count-update_same (in_slot i t s) p f db.runs (
      All-weaken (Safe p f) (λ r. p r ≡ true → in_slot i t s (f r) ≡ in_slot i t s r) db.runs
        (λ r k _. in_slot-safe i t s r (f r) k.keeps_profile k.keeps_trigger k.keeps_slot) safe)

  pub update-ids : (i : ℕ) → count (has_id i) (update p f db.runs) ≡ count (has_id i) db.runs
  update-ids i = count-update_same (has_id i) p f db.runs (
      All-weaken (Safe p f) (λ r. p r ≡ true → has_id i (f r) ≡ has_id i r) db.runs
        (λ r k _. ap (λ j. j == i) k.keeps_id) safe)

  -- A safe update keeps the table valid.
  pub update-IsValid : IsValid db → IsValid (record db { runs = update p f db.runs })
  update-IsValid v = record {
    active_once = λ i. omega (
      arith,
      v.active_once i,
      count-update_le (is_active_of i) p f db.runs (
          All-weaken (Safe p f)
            (λ r. p r ≡ true → is_active_of i (f r) ≡ true → is_active_of i r ≡ true) db.runs
            (λ r k h a. active-safe i r (f r) k.keeps_profile (k.revives_none h) a) safe),
    );
    slot_once = λ i t s. rw (update-slots i t s) (v.slot_once i t s);
    id_once = λ i. rw (update-ids i) (v.id_once i);
    id_fresh = λ i h. rw (update-ids i) (v.id_fresh i h);
    consistent =
        All-update IsConsistent p f db.runs
          (All-weaken (Safe p f) (λ r. p r ≡ true → IsConsistent r → IsConsistent (f r)) db.runs
            (λ r k. k.keeps_consistent) safe)
          v.consistent;
  }

-- The rows of a kind after an insertion.
pub count-inserted :
    (q : Run → Bool) (r : Run) (db : Db) {out : Db}
    → insert_run r db ≡ some out
    → count q out.runs ≡ count q db.runs + (if q r then 1 else 0)
count-inserted q r db {out} h = rw (insert_run-Inserts r db h).rows (count-snoc q db.runs r)

-- A new row meets no other of its profile that is active, and none of its slot.
pub count-inserted_active :
    (r : Run) (db : Db) {out : Db}
    → insert_run r db ≡ some out
    → is_active r ≡ true
    → count (is_active_of r.profile_id) out.runs ≡ 1
count-inserted_active r db {out} h a = ground (
  arith,
  count-inserted (is_active_of r.profile_id) r db {out = out} h,
  count-any-false (is_active_of r.profile_id) db.runs ((insert_run-Inserts r db h).no_active a),
)

pub count-inserted_slot :
    (r : Run) (db : Db) (s : ℕ) {out : Db}
    → insert_run r db ≡ some out
    → r.scheduled_for ≡ some s
    → count (in_slot r.profile_id r.trigger s) out.runs ≡ 1
count-inserted_slot r db s {out} h a = ground (
  arith,
  count-inserted (in_slot r.profile_id r.trigger s) r db {out = out} h,
  count-any-false (in_slot r.profile_id r.trigger s) db.runs
      ((insert_run-Inserts r db h).no_slot s a),
)
