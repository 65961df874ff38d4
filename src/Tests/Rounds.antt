-- ===== src/Tests/Rounds.antt =====
-- Delivery rounds (src/pipeline/delivery.py).
use backup_telebot.Delivery.Recipient.Sound.{Post, IsSound, deliver_to-IsSound}
use backup_telebot.Delivery.Recipient.{deliver_to}
use backup_telebot.Delivery.Round.{prepared_rows, contains}
use backup_telebot.Delivery.Round.Rows.{is_row_of, is_stray, is_delivered_to, prepared_rows_lem}
use backup_telebot.Prelude.{
  ◌≡◌, count, ◌⊎◌, ◌≤◌, refl, none, some, true, false, List, [], ◌∷◌, arith, max,
}
use backup_telebot.Domain.{DeliveryStatus}
use backup_telebot.Store.{Delivery}
use backup_telebot.Delivery.Backoff.{Policy, Jitter, IsUniform, retry_delay}
use backup_telebot.Delivery.Backoff.Bounds.{retry_delay_bounds}
use backup_telebot.Store.{returns}
use backup_telebot.Delivery.Session.{World, Session, acknowledged}
use backup_telebot.Delivery.Recipient.{Artifact, send_parts}
use backup_telebot.Delivery.Recipient.Parts.{acked, Contiguous, send_parts-Contiguous}

abbrev no_jitter : Jitter
no_jitter = record { above = λ n. 0; below = λ n. 0; back = λ n. 0 }

no_jitter-IsUniform : IsUniform no_jitter
no_jitter-IsUniform = record {
  above_le = λ n. omega arith;
  below_le = λ n. omega arith;
  back_le = λ n. omega arith;
}

abbrev policy : Policy
policy = record {
  max_bytes = 1000;
  max_attempts = 5;
  retry_base = 30;
  retry_max = 3600;
  retry_jitter = 10;
}

retry_delay_bounds_example :
    (30 ≤ retry_delay policy no_jitter 4 none)
    × (retry_delay policy no_jitter 4 none ≤ 3600)
    × (30 ≤ retry_delay policy no_jitter 4 (some 90))
    × (90 ≤ retry_delay policy no_jitter 4 (some 90))
    × (retry_delay policy no_jitter 4 (some 90) ≤ max 3600 90)
retry_delay_bounds_example =
    retry_delay_bounds policy no_jitter 4 90 no_jitter-IsUniform (omega arith) (omega arith)

abbrev calm : World
calm = record {
  clock = λ k. k;
  peek = λ k. record { lease_owner = some "w1"; cancel_requested = false };
  caption = λ n. returns tt;
  upload = λ k. acknowledged (some k) (some k);
  jitter = λ k. no_jitter;
  is_authorized = λ k i. true;
}

abbrev artifacts : List Artifact
artifacts = record { number = 2; size = 10 } ∷ record { number = 3; size = 4 } ∷ []

abbrev half_sent : Delivery
half_sent = record {
  run_id = 1;
  admin_id = 5;
  status = DeliveryStatus.pending;
  attempts = 1;
  part_attempts = 0;
  next_part = 2;
  next_attempt_at = some 0;
  telegram_message_id = none;
  telegram_file_id = none;
  delivered_at = none;
  last_error = none;
}

abbrev session : Session
session = record {
  rows = half_sent ∷ [];
  saved = half_sent ∷ [];
  uploads = record { admin_id = 5; part = 1; is_acknowledged = true } ∷ [];
  ticks = 0;
}

send_parts-Contiguous_example :
    Contiguous 5 2
      (acked 5 session.uploads)
      (send_parts calm policy (some "w1") artifacts half_sent session)
send_parts-Contiguous_example =
    send_parts-Contiguous calm policy (some "w1") artifacts half_sent session (refl, (refl, tt))

half_sent-IsSound : IsSound policy 3 half_sent
half_sent-IsSound = record {
  timed = refl;
  limited = omega arith;
  complete = λ c. absurd (ground (arith, c));
}

abbrev all_parts : List Artifact
all_parts = record { number = 1; size = 10 } ∷ artifacts

deliver_to-IsSound_example :
    Post (IsSound policy 3) (deliver_to calm policy (some "w1") all_parts half_sent session)
deliver_to-IsSound_example =
    deliver_to-IsSound policy calm (some "w1") all_parts half_sent session half_sent-IsSound

prepared_rows_example :
    let out = prepared_rows 1 60 (4 ∷ []) (half_sent ∷ []) in
    ((contains (4 ∷ []) 4 ≡ false) ⊎ (1 ≤ count (is_row_of 4) out))
    × (count (is_stray (4 ∷ [])) out ≡ 0)
    × (count (is_delivered_to 4) out ≡ count (is_delivered_to 4) (half_sent ∷ []))
prepared_rows_example = prepared_rows_lem 1 60 (4 ∷ []) (half_sent ∷ []) 4
