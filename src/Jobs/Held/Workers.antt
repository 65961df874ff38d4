-- ===== src/Jobs/Held/Workers.antt =====
-- The calls of other workers leave a held run held, until its lease expires.
use backup_telebot.Prelude.{
  ◌∙◌, &&_left, Bool, holds_text, ℕ, ◌≡◌, ◌≢◌, refl, subst, ◌≤◌, inl, inr, String, true, Option,
  some, List, arith, ◌==◌, &&_right, update, find, find-In, find-true, All-of, All-update, In,
  In-All,
}
use backup_telebot.Domain.{RunStatus}
use backup_telebot.Store.{Run, Db, has_id}
use backup_telebot.Jobs.Lease.{
  claim, claim_cancel_requested, renew, take_lease, extend_lease, is_held_by, is_free,
}
use backup_telebot.Jobs.Lease.Claim.{claim_cases, claim_cancel_cases}
use backup_telebot.Jobs.Cancel.{finalize_cancel_requested, is_cancelling, finish_cancelled}
use backup_telebot.Jobs.Cancel.Valid.{finalize_cases}
use backup_telebot.Jobs.Finish.{
  write_failure, wait, wait_for_retry, is_waiting, fail, failed_run, finish, finished_run,
  is_finishable,
}
use backup_telebot.Jobs.Finish.Valid.{fail_cases, finish_cases}
use backup_telebot.Jobs.Stages.Valid.{move_cases, moved-keys, moved-active}
use backup_telebot.Jobs.Stages.{Move, moved, move, clear, clear_delivered}
use backup_telebot.Jobs.Held.{
  IsLeased, count-kept, IsHeld, RowIsHeld, IsHeld-rows, held-update, free-ne-held, foreign-ne-held,
}

finishable-holds :
    (i : ℕ) (by : String) (r : Run)
    → is_finishable i (some by) r ≡ true
    → holds_text r.lease_owner by ≡ true
finishable-holds i by r h = ground (arith, h)

cancelling-holds :
    (i : ℕ) (by : String) (r : Run)
    → is_cancelling i by r ≡ true
    → holds_text r.lease_owner by ≡ true
cancelling-holds i by r h = ground (arith, h)

module _ (owner : String) (until run_id : ℕ) where
  IsHeld-give :
      (by : String) (n now : ℕ) (r : Run) (db : Db)
      → IsHeld owner until run_id db
      → now ≤ until
      → In r db.runs
      → is_free now r ≡ true
      → IsHeld owner until run_id
          (record db { runs = update (has_id r.id) (take_lease by n now) db.runs })
  IsHeld-give by n now r db h early i free = record {
    known = h.known;
    present =
        rw (count-kept owner until run_id (has_id r.id) (take_lease by n now) db.runs (λ x. refl))
          h.present;
    held =
        All-update (RowIsHeld owner until run_id) (has_id r.id) (take_lease by n now) db.runs
          (All-of _ db.runs (λ x p row same. absurd (
            free-ne-held owner until run_id now r early free
              (In-All (RowIsHeld owner until run_id) db.runs i h.held (ground (arith, p, same))))))
          h.held;
  }

  pub claim-IsHeld :
      (by : String) (n : ℕ) (statuses : List RunStatus) (locked : ℕ → Bool) (now : ℕ) (db : Db)
      → now ≤ until
      → IsHeld owner until run_id db
      → IsHeld owner until run_id (claim by n statuses locked now db).1
  claim-IsHeld by n statuses locked now db early h =
      elim (claim_cases by n statuses locked now db) [
        | inl same ↦ rw same h
        | inr (r, same, i, free, _) ↦ rw same (IsHeld-give by n now r db h early i free)
      ]

  pub claim_cancel_requested-IsHeld :
      (by : String) (n : ℕ) (locked : ℕ → Bool) (now : ℕ) (db : Db)
      → now ≤ until
      → IsHeld owner until run_id db
      → IsHeld owner until run_id (claim_cancel_requested by n locked now db).1
  claim_cancel_requested-IsHeld by n locked now db early h =
      elim (claim_cancel_cases by n locked now db) [
        | inl same ↦ rw same h
        | inr (r, same, i, free, _) ↦ rw same (IsHeld-give by n now r db h early i free)
      ]

  pub renew-IsHeld :
      (by : String) (i n now : ℕ) (db : Db)
      → by ≢ owner
      → IsHeld owner until run_id db
      → IsHeld owner until run_id (renew i by n now db).1
  unfolding renew
  renew-IsHeld by i n now db ne h = record {
    known = h.known;
    present =
        rw
          (count-kept owner until run_id (is_held_by i by) (extend_lease n now) db.runs (λ r. refl))
          h.present;
    held =
        held-update owner until run_id (is_held_by i by) (extend_lease n now) db.runs (λ r. refl)
          (λ r p l. absurd (foreign-ne-held owner until run_id by r ne (&&_right _ _ p) l)) h.held;
  }

  pub finalize_cancel_requested-IsHeld :
      (by : String) (i now : ℕ) (db : Db)
      → by ≢ owner
      → IsHeld owner until run_id db
      → IsHeld owner until run_id (finalize_cancel_requested i by now db).1
  finalize_cancel_requested-IsHeld by i now db ne h = elim (finalize_cases i now db by) [
    | inl same ↦ rw same h
    | inr (same, next) ↦
        IsHeld-rows owner until run_id db _ h next
          (rw same (
            count-kept owner until run_id (is_cancelling i by) (finish_cancelled now) db.runs
              (λ r. refl)))
          (rw same (
            held-update owner until run_id (is_cancelling i by) (finish_cancelled now) db.runs
              (λ r. refl)
              (λ r p l.
                absurd (foreign-ne-held owner until run_id by r ne (cancelling-holds i by r p) l))
              h.held))
  ]

  pub finish-IsHeld :
      (by : String) (i : ℕ) (status : RunStatus) (code : Option String) (retention now : ℕ)
      (db : Db)
      → by ≢ owner
      → IsHeld owner until run_id db
      → IsHeld owner until run_id (finish i (some by) status code retention now db).1
  finish-IsHeld by i status code retention now db ne h =
      elim (finish_cases i (some by) status code retention now db) [
        | inl same ↦ rw same h
        | inr (same, next) ↦
            IsHeld-rows owner until run_id db _ h next
              (rw same (
                count-kept owner until run_id (is_finishable i (some by))
                  (finished_run status code retention now) db.runs (λ r. refl)))
              (rw same (
                held-update owner until run_id (is_finishable i (some by))
                  (finished_run status code retention now) db.runs (λ r. refl)
                  (λ r p l.
                    absurd
                      (foreign-ne-held owner until run_id by r ne (finishable-holds i by r p) l))
                  h.held))
      ]

  -- The failing worker has read the row while it was held.
  pub fail-IsHeld :
      (by : String) (i : ℕ) (code message : String) (retention now : ℕ) (seen db : Db)
      → by ≢ owner
      → IsHeld owner until run_id seen
      → IsHeld owner until run_id db
      → IsHeld owner until run_id (fail by i RunStatus.failed code message retention now seen db)
  unfolding write_failure
  fail-IsHeld by i code message retention now seen db ne k h =
      elim (fail_cases by i code message retention now seen db (find (has_id i) seen.runs) refl) [
        | inl same ↦ rw same h
        | inr (r, e, f, same, next) ↦
            IsHeld-rows owner until run_id db _ h next
              (rw same
                (count-kept owner until run_id (has_id i) (failing r) db.runs (failing-id r)))
              (rw same (
                All-update (RowIsHeld owner until run_id) (has_id i) (failing r) db.runs
                  (All-of _ db.runs (λ x p row held. absurd (
                    foreign-ne-held owner until run_id by r ne (&&_right _ _ f) (
                      In-All (RowIsHeld owner until run_id) seen.runs
                        (find-In (has_id i) seen.runs e) k.held
                        (same_id x r p (subst (λ j. (j == run_id) ≡ true) (failing-id r x) held)
                          (find-true (has_id i) seen.runs e))))))
                  h.held))
      ]
    where
      failing : Run → Run → Run
      failing r = write_failure r (failed_run RunStatus.failed code message retention now r)

      failing-id : (r x : Run) → (failing r x).id ≡ x.id
      failing-id r x = refl

      same_id :
          (x r : Run)
          → has_id i x ≡ true
          → has_id run_id x ≡ true
          → has_id i r ≡ true
          → has_id run_id r ≡ true
      same_id x r p q k = ground arith

  -- A move leaves the lease and the life of the run, whoever makes it.
  pub move-IsHeld :
      (by : String) (i : ℕ) (m : Move) (seen db : Db)
      → IsHeld owner until run_id db
      → IsHeld owner until run_id (move by i m seen db).1
  move-IsHeld by i m seen db h = elim (move_cases by i m seen db) [
    | inl same ↦ rw same h
    | inr (same, next) ↦
        IsHeld-rows owner until run_id db _ h next
          (rw same (count-kept owner until run_id (has_id i) (moved m) db.runs moved-id))
          (rw same
            (held-update owner until run_id (has_id i) (moved m) db.runs moved-id still h.held))
  ]
    where
      moved-id : (r : Run) → (moved m r).id ≡ r.id
      moved-id r = (moved-keys m r).0

      still :
          (r : Run) → has_id i r ≡ true → IsLeased owner until r → IsLeased owner until (moved m r)
      still r p l = record {
        owned = (moved-keys m r).4 ∙ l.owned;
        expires = (moved-keys m r).5 ∙ l.expires;
        active = moved-active m r l.active;
      }

  pub wait-IsHeld :
      (by : String) (i : ℕ) (db : Db)
      → by ≢ owner
      → IsHeld owner until run_id db
      → IsHeld owner until run_id (wait i by db)
  unfolding wait
  wait-IsHeld by i db ne h = record {
    known = h.known;
    present =
        rw (count-kept owner until run_id (is_waiting i by) wait_for_retry db.runs (λ r. refl))
          h.present;
    held =
        held-update owner until run_id (is_waiting i by) wait_for_retry db.runs (λ r. refl)
          (λ r p l.
            absurd (foreign-ne-held owner until run_id by r ne (&&_left _ _ (&&_right _ _ p)) l))
          h.held;
  }

  pub clear-IsHeld :
      (i : ℕ) (db : Db) → IsHeld owner until run_id db → IsHeld owner until run_id (clear i db)
  unfolding clear
  clear-IsHeld i db h = record {
    known = h.known;
    present =
        rw (count-kept owner until run_id (has_id i) clear_delivered db.runs (λ r. refl)) h.present;
    held =
        held-update owner until run_id (has_id i) clear_delivered db.runs (λ r. refl)
          (λ r p l. record { owned = l.owned; expires = l.expires; active = l.active }) h.held;
  }
