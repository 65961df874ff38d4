-- ===== src/Jobs/Stages/Valid.antt =====
-- Moving a run on keeps the run table valid, while its worker holds it.
use backup_telebot.Prelude.{
  [], ◌∷◌, ◌∷◌, ℕ, ◌≡◌, refl, String, Bool, true, ◌⊎◌, inl, inr, Option, none, some, List, arith,
  update, find, All, All-of, holds_text,
}
use backup_telebot.Store.{value_error, Outcome, returns, raises, Run, Db, has_id, is_active}
use backup_telebot.Store.Integrity.{IsConsistent, IsValid, Safe, update-IsValid, runs-IsValid}
use backup_telebot.Jobs.Stages.{
  Move, moved, announced, checked, written, move, clear, clear_delivered,
}

-- The run, where it is in the table, is leased to the worker.
abbrev pub IsOwner : String → ℕ → Db → Type 0
IsOwner owner run_id db =
    All (λ r. has_id run_id r ≡ true → holds_text r.lease_owner owner ≡ true) db.runs

pub moved-keys :
    (m : Move) (r : Run)
    → let f = moved m r in
      (f.id ≡ r.id)
      × (f.profile_id ≡ r.profile_id)
      × (f.trigger ≡ r.trigger)
      × (f.scheduled_for ≡ r.scheduled_for)
      × (f.lease_owner ≡ r.lease_owner)
      × (f.lease_expires_at ≡ r.lease_expires_at)
      × (f.finished_at ≡ r.finished_at)
unfolding moved
moved-keys m r = ground arith

pub moved-active : (m : Move) (r : Run) → is_active r ≡ true → is_active (moved m r) ≡ true
unfolding moved
moved-active m r a = ground (arith, a)

moved-Safe :
    (i : ℕ) (m : Move) (r : Run)
    → (has_id i r ≡ true → is_active r ≡ true)
    → Safe (has_id i) (moved m) r
moved-Safe i m r a = record {
  keeps_id = (moved-keys m r).0;
  keeps_profile = (moved-keys m r).1;
  keeps_trigger = (moved-keys m r).2;
  keeps_slot = (moved-keys m r).3;
  revives_none = λ h k. a h;
  keeps_consistent = λ h c. record {
    ended = rw (moved-active m r (a h), (moved-keys m r).6) (ground (arith, c.ended, a h));
    released = λ k. ground (arith, k, moved-active m r (a h));
    closed = λ k. ground (arith, k, moved-active m r (a h));
  };
}

held-active :
    (owner : String) (r : Run)
    → IsConsistent r
    → holds_text r.lease_owner owner ≡ true
    → is_active r ≡ true
held-active owner r c h = ground (arith, c.released, h)

announced-rows :
    (m : Move) (r : Run) (db : Db)
    → ((announced m r db).runs ≡ db.runs) × ((announced m r db).next_id ≡ db.next_id)
unfolding announced
announced-rows m r db = ground arith

module _ (owner : String) (i : ℕ) (m : Move) (seen db : Db) where
  pub move_cases :
      let out = (move owner i m seen db).1 in
      (out ≡ db) ⊎ ((out.runs ≡ update (has_id i) (moved m) db.runs) × (out.next_id ≡ db.next_id))
  unfolding move
  move_cases = go (find (has_id i) seen.runs)
    where
      by_check :
          (r : Run) (o : Outcome (Unit {0}))
          → let out = (written i m r db o).1 in
            (out ≡ db)
            ⊎ ((out.runs ≡ update (has_id i) (moved m) db.runs) × (out.next_id ≡ db.next_id))
      by_check r (raises e) = inl refl
      by_check r (returns t) = inr (announced-rows m r _)

      go :
          (o : Option Run)
          → let out =
              (elim o as (λ _. Outcome (Unit {0}) × Db) [
                | none ↦ (raises (value_error "run disappeared"), db)
                | some r ↦ written i m r db (checked owner m r)
              ]).1 in
            (out ≡ db)
            ⊎ ((out.runs ≡ update (has_id i) (moved m) db.runs) × (out.next_id ≡ db.next_id))
      go none = inl refl
      go (some r) = by_check r (checked owner m r)

  pub move-IsValid : IsOwner owner i db → IsValid db → IsValid (move owner i m seen db).1
  move-IsValid o v = elim move_cases [
    | inl same ↦ rw same v
    | inr (same, next) ↦
        runs-IsValid (record db { runs = update (has_id i) (moved m) db.runs }) _ same next
          (update-IsValid (has_id i) (moved m) db (safe db.runs o v.consistent) v)
  ]
    where
      safe :
          (rs : List Run)
          → All (λ r. has_id i r ≡ true → holds_text r.lease_owner owner ≡ true) rs
          → All IsConsistent rs
          → All (Safe (has_id i) (moved m)) rs
      safe [] a c = tt
      safe (r ∷ rs) a c = (moved-Safe i m r (λ h. held-active owner r c.0 (a.0 h)), safe rs a.1 c.1)

clear-Safe : (p : Run → Bool) (r : Run) → Safe p clear_delivered r
clear-Safe p r = record {
  keeps_id = refl;
  keeps_profile = refl;
  keeps_trigger = refl;
  keeps_slot = refl;
  revives_none = λ h k. k;
  keeps_consistent =
      λ h c. record { ended = c.ended; released = c.released; closed = λ k. inl refl };
}

pub clear-IsValid : (i : ℕ) (db : Db) → IsValid db → IsValid (clear i db)
unfolding clear
clear-IsValid i db v =
    update-IsValid (has_id i) clear_delivered db
      (All-of (Safe (has_id i) clear_delivered) db.runs (clear-Safe (has_id i))) v
