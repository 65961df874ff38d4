-- ===== src/Delivery/Round.antt =====
-- `DeliveryService.attempt` of src/pipeline/delivery.py: the recipients, their rows, the loop over
-- them, and the verdict on the run.
--
-- The artifact list is what `delivery_artifacts` returns or raises. `assigned` is the set of
-- recipients that the run's snapshot and the live access table share.
pub mod Rows
use backup_telebot.Prelude.{
  str_eq, ℕ, String, Bool, true, false, ◌&&◌, ◌||◌, not, Option, none, some, List, [], ◌∷◌, ◌++◌,
  ltb, ◌==◌, is_none, if◌then◌else◌, any, find, update,
}
use backup_telebot.Domain.{
  RunStatus, RunStage, DeliveryStatus, is_pending, is_failed, is_succeeded, is_superadmin, is_admin,
}
use backup_telebot.Store.{
  Error, value_error, pipeline_error, Outcome, returns, raises, User, Run, Delivery,
}
use backup_telebot.Delivery.Backoff.{Policy}
use backup_telebot.Delivery.Session.{World, Exec, ◌>>=◌, ◌>>◌, pure, commit, now, boundary}
use backup_telebot.Delivery.Recipient.{Artifact, deliver_to}

-- The users that a round selects: enabled superadmins, and enabled admins with access.
abbrev pub contains : List ℕ → ℕ → Bool
contains ids i = any (λ j. j == i) ids

unfoldable pub is_recipient : List ℕ → User → Bool
is_recipient assigned u =
    (u.enabled && is_none u.deleted_at)
    && (is_superadmin u.role || (is_admin u.role && contains assigned u.id))

-- Sorted insertion, without repeats: `sorted(set(...))`.
unfoldable pub insert_id : ℕ → List ℕ → List ℕ
insert_id i [] = i ∷ []
insert_id i (j ∷ rest) =
    let later = insert_id i rest in
    if ltb i j then i ∷ j ∷ rest else if i == j then j ∷ rest else j ∷ later

unfoldable pub selected_ids : List ℕ → List User → List ℕ
unfolding insert_id
selected_ids assigned [] = []
selected_ids assigned (u ∷ rest) =
    let others = selected_ids assigned rest in
    if is_recipient assigned u then insert_id u.id others else others

-- A row whose recipient is no longer selected.
unfoldable pub revoke : List ℕ → Delivery → Delivery
revoke selected d =
    if not (contains selected d.admin_id) && not (is_succeeded d.status)
    then record d {
      status = DeliveryStatus.skipped;
      next_attempt_at = none;
      last_error = some "assignment revoked";
    }
    else d

abbrev pub new_row : ℕ → ℕ → ℕ → Delivery
new_row run_id t admin_id = record {
  run_id = run_id;
  admin_id = admin_id;
  status = DeliveryStatus.pending;
  attempts = 0;
  part_attempts = 0;
  next_part = 1;
  next_attempt_at = some t;
  telegram_message_id = none;
  telegram_file_id = none;
  delivered_at = none;
  last_error = none;
}

unfoldable pub has_row : List Delivery → ℕ → Bool
has_row rows admin_id = any (λ (d : Delivery). d.admin_id == admin_id) rows

unfoldable pub missing_rows : ℕ → ℕ → List Delivery → List ℕ → List Delivery
unfolding has_row
missing_rows run_id t rows [] = []
missing_rows run_id t rows (i ∷ rest) =
    let more = missing_rows run_id t rows rest in
    if has_row rows i then more else new_row run_id t i ∷ more

-- The rows of the round: those of lost recipients skipped, and one more for each new recipient.
unfoldable pub prepared_rows : ℕ → ℕ → List ℕ → List Delivery → List Delivery
unfolding revoke missing_rows
prepared_rows run_id t selected rows =
    update (λ _. true) (revoke selected) rows ++ missing_rows run_id t rows selected

abbrev prepare : ℕ → List ℕ → World → Exec (Unit {0})
prepare run_id selected w = do
  t ← now w
  (λ s. (returns tt, record s { rows = prepared_rows run_id t selected s.rows }))

-- `deliveries[admin_id]`
abbrev row_of : ℕ → Exec (Option Delivery)
row_of i s = (returns (find (λ (d : Delivery). d.admin_id == i) s.rows), s)

deliver_row : World → Policy → Option String → List Artifact → Option Delivery → Exec (Unit {0})
deliver_row w p owner artifacts none = pure tt
deliver_row w p owner artifacts (some d) = deliver_to w p owner artifacts d >>= λ _. pure tt

unfoldable pub deliver_all :
    World → Policy → Option String → List Artifact → List ℕ → Exec (Unit {0})
unfolding deliver_row
deliver_all w p owner artifacts [] = pure tt
deliver_all w p owner artifacts (i ∷ rest) = do
  d ← row_of i
  deliver_row w p owner artifacts d
  deliver_all w p owner artifacts rest

pub data Verdict : Type 0 where
  waiting action_required all_delivered : Verdict

unfoldable pub verdict_of : List Delivery → Verdict
verdict_of rows =
    if any (λ (d : Delivery). is_pending d.status) rows
    then waiting
    else if any (λ (d : Delivery). is_failed d.status) rows
    then action_required
    else all_delivered

abbrev judge : Exec Verdict
judge s = (returns (verdict_of s.rows), s)

abbrev lacks_text : Option String → Bool
lacks_text none = true
lacks_text (some t) = str_eq t ""

unfoldable pub is_finalized : Run → Bool
is_finalized r = not (
    lacks_text r.pending_directory
    || (lacks_text r.final_filename || (is_none r.final_size_bytes || lacks_text r.final_sha256)))

abbrev raise : {A : Type 0} → Error → Exec A
raise e s = (raises e, s)

abbrev or_raise : {A : Type 0} → Outcome A → Exec A
or_raise o s = (o, s)

-- The round once the artifacts are known.
unfoldable pub attempt_parts : World → Policy → Run → List ℕ → List Artifact → Exec Verdict
attempt_parts w p run selected artifacts =
    if any (λ (a : Artifact). ltb p.max_bytes a.size) artifacts
    then raise (pipeline_error "UPLOAD_LIMIT")
    else do
      prepare run.id selected w
      commit
      boundary w run.lease_owner true
      deliver_all w p run.lease_owner artifacts selected
      boundary w run.lease_owner true
      judge

attempt_finalized : World → Policy → Run → List ℕ → Outcome (List Artifact) → Bool → Exec Verdict
attempt_finalized w p run selected artifacts false =
    raise (value_error "run has no finalized artifact")
attempt_finalized w p run selected artifacts true = do
  parts ← or_raise artifacts
  attempt_parts w p run selected parts

-- attempt
unfoldable pub attempt :
    World → Policy → Run → List User → List ℕ → Outcome (List Artifact) → Exec Verdict
unfolding attempt_finalized
attempt w p run users assigned artifacts = do
  boundary w run.lease_owner true
  attempt_finalized w p run (selected_ids assigned users) artifacts (is_finalized run)
