-- ===== src/Delivery/Recipient.antt =====
-- The body of the recipients' loop in `DeliveryService.attempt` of src/pipeline/delivery.py.
pub mod Parts
pub mod Sound
use Prim.Native.String.{◌++◌ as text_append}
use backup_telebot.Prelude.{
  ℕ, ◌+◌, ◌-◌, String, Bool, true, false, ◌||◌, Option, none, some, List, [], ◌∷◌, ltb, leb,
  if◌then◌else◌, length,
}
use backup_telebot.Domain.{DeliveryStatus, is_pending}
use backup_telebot.Store.{cancelled_error, raises, Delivery}
use backup_telebot.Delivery.Backoff.{Policy, Jitter, retry_delay, is_due}
use backup_telebot.Delivery.Failure.{
  Failure, DeliveryErrorKind, transient, permanent, flood_wait, classify_delivery_error,
}
use backup_telebot.Delivery.Session.{
  Answer, World, Exec, acknowledged, refused, broken_off, build_caption, ◌>>=◌, ◌>>◌, pure, commit,
  put, now, boundary, send_file, draw, authorized,
}

pub record Artifact : Type 0 where
  pub number : ℕ
  pub size : ℕ

abbrev pub kind_text : DeliveryErrorKind → String
kind_text transient = "TRANSIENT"
kind_text permanent = "PERMANENT"
kind_text flood_wait = "FLOOD_WAIT"

abbrev pub is_permanent : DeliveryErrorKind → Bool
is_permanent permanent = true
is_permanent _ = false

-- `f"{kind.value}:{type(exc).__name__}"`
abbrev pub error_text : DeliveryErrorKind → String → String
error_text kind class_name = text_append (kind_text kind) (text_append ":" class_name)

-- The assignments before an upload.
abbrev pub start_attempt : Policy → Jitter → ℕ → Delivery → Delivery
start_attempt p j t d = record d {
  attempts = d.attempts + 1;
  part_attempts = d.part_attempts + 1;
  next_attempt_at = some (t + retry_delay p j (d.part_attempts + 1) none);
}

-- The assignments after a failed upload that is not tried again.
abbrev pub give_up : String → Delivery → Delivery
give_up error d = record d {
  last_error = some error;
  status = DeliveryStatus.failed;
  next_attempt_at = none;
}

abbrev pub postpone : Policy → Jitter → ℕ → String → Option ℕ → Delivery → Delivery
postpone p j t error wait d = record d {
  last_error = some error;
  next_attempt_at = some (t + retry_delay p j d.part_attempts wait);
}

-- The assignments after an acknowledged upload.
abbrev pub acknowledge : ℕ → Option ℕ → Option ℕ → ℕ → Delivery → Delivery
acknowledge number message_id file_id t d = record d {
  next_part = number + 1;
  part_attempts = 0;
  telegram_message_id = message_id;
  telegram_file_id = file_id;
  last_error = none;
  next_attempt_at = some t;
}

save : Delivery → Exec Delivery
save d = do put d; commit; pure d

retry_or_fail : World → Policy → Delivery → String → DeliveryErrorKind × Option ℕ → Exec Delivery
unfolding save
retry_or_fail w p d class_name (kind, wait) =
    if is_permanent kind || leb p.max_attempts d.part_attempts
    then save (give_up (error_text kind class_name) d)
    else do t ← now w; j ← draw w; save (postpone p j t (error_text kind class_name) wait d)

-- `except Exception`
unfoldable pub on_failure : World → Policy → Option String → Delivery → Failure → Exec Delivery
unfolding retry_or_fail
on_failure w p owner d e = do
  boundary w owner true
  retry_or_fail w p d e.class_name (classify_delivery_error e)

unfoldable pub on_acknowledged :
    World → Option String → Delivery → ℕ → Option ℕ → Option ℕ → Exec Delivery
unfolding save
on_acknowledged w owner d number message_id file_id = do
  boundary w owner false
  t ← now w
  save (acknowledge number message_id file_id t d)

-- How the body of the loop over the parts ends: `break` after a failed upload, or on to the next.
pub data PartResult : Type 0 where
  stopped : Delivery → PartResult
  sent : Delivery → PartResult

conclude : World → Policy → Option String → ℕ → Delivery → Answer → Exec PartResult
unfolding on_failure on_acknowledged
conclude w p owner number d (refused e) = do d' ← on_failure w p owner d e; pure (stopped d')
conclude w p owner number d broken_off = λ s. (raises cancelled_error, s)
conclude w p owner number d (acknowledged message_id file_id) = do
  d' ← on_acknowledged w owner d number message_id file_id
  pure (sent d')

-- The body of the loop over the parts.
unfoldable pub send_part : World → Policy → Option String → Artifact → Delivery → Exec PartResult
unfolding save conclude
send_part w p owner a d = do
  boundary w owner true
  t ← now w
  j ← draw w
  d' ← save (start_attempt p j t d)
  build_caption w
  answer ← send_file w d'.admin_id a.number
  conclude w p owner a.number d' answer

-- The loop over the parts that are left.
unfoldable pub send_parts :
    World → Policy → Option String → List Artifact → Delivery → Exec Delivery
send_parts w p owner [] d = pure d
send_parts w p owner (a ∷ rest) d = send_part w p owner a d >>= λ r. elim r [
  | stopped d' ↦ pure d'
  | sent d' ↦ send_parts w p owner rest d'
]

-- `artifacts[next_part - 1:]`
unfoldable pub parts_from : ℕ → List Artifact → List Artifact
parts_from n [] = []
parts_from n (a ∷ rest) = if leb n 1 then a ∷ rest else parts_from (n - 1) rest

abbrev pub mark : DeliveryStatus → String → Delivery → Delivery
mark status reason d = record d {
  status = status;
  next_attempt_at = none;
  last_error = some reason;
}

abbrev pub delivered : ℕ → Delivery → Delivery
delivered t d = record d {
  status = DeliveryStatus.succeeded;
  next_attempt_at = none;
  delivered_at = some t;
}

-- After the loop over the parts.
unfoldable pub close_row : World → ℕ → Delivery → Exec Delivery
unfolding save
close_row w total d = if ltb total d.next_part then (do t ← now w; save (delivered t d)) else pure d

-- A recipient who may still receive the artifact gets the parts that are left.
unfoldable pub send_if_authorized :
    World → Policy → Option String → List Artifact → Delivery → Bool → Exec Delivery
unfolding save
send_if_authorized w p owner artifacts d false =
    save (mark DeliveryStatus.skipped "recipient authorization revoked" d)
send_if_authorized w p owner artifacts d true = do
  d' ← send_parts w p owner (parts_from d.next_part artifacts) d
  close_row w (length artifacts) d'

-- A due row whose attempts are used up fails without an upload.
unfoldable pub serve : World → Policy → Option String → List Artifact → Delivery → Exec Delivery
unfolding save
serve w p owner artifacts d =
    if leb p.max_attempts d.part_attempts
    then save (mark DeliveryStatus.failed "PERMANENT:MAX_ATTEMPTS" d)
    else do
      yes_authorized ← authorized w d.admin_id
      send_if_authorized w p owner artifacts d yes_authorized

unfoldable pub serve_if_due :
    World → Policy → Option String → List Artifact → Delivery → Exec Delivery
serve_if_due w p owner artifacts d = do
  t ← now w
  if is_due d.next_attempt_at t then serve w p owner artifacts d else pure d

-- One recipient.
unfoldable pub deliver_to :
    World → Policy → Option String → List Artifact → Delivery → Exec Delivery
deliver_to w p owner artifacts d = do
  boundary w owner true
  if is_pending d.status then serve_if_due w p owner artifacts d else pure d
