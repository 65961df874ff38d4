-- ===== src/Delivery/Session.antt =====
-- The state of a delivery round and its effects: the delivery rows of the run as the session sees
-- them and as they were last committed, and the uploads that were made.
--
-- What the round cannot decide is a parameter, the `World`: the clock, the run row as other
-- transactions have left it at each `_cancel_boundary`, the captions, the transport's answers and the draws of
-- the random source. Each is indexed by the number of effects so far.
use backup_telebot.Prelude.{
  ℕ, suc, String, Bool, true, false, ◌&&◌, not, Option, none, some, List, [], ◌∷◌, ◌++◌, ◌==◌,
  is_none, holds_text, if◌then◌else◌, update,
}
use backup_telebot.Store.{runtime_error, cancelled_error, Outcome, returns, raises, Delivery}
use backup_telebot.Delivery.Backoff.{Jitter}
use backup_telebot.Delivery.Failure.{Failure}

-- The answer to an upload: an acknowledged message with its ids, an exception, or the CancelledError of the
-- task, which `except Exception` lets pass.
pub data Answer : Type 0 where
  acknowledged : Option ℕ → Option ℕ → Answer
  refused : Failure → Answer
  broken_off : Answer

-- The columns of the run row that a boundary reads again.
pub record Peek : Type 0 where
  pub lease_owner : Option String
  pub cancel_requested : Bool

pub record World : Type 0 where
  pub clock : ℕ → ℕ
  pub peek : ℕ → Peek
  pub caption : ℕ → Outcome (Unit {0})  -- whether the caption can be built, or what that raises
  pub upload : ℕ → Answer
  pub jitter : ℕ → Jitter
  pub is_authorized : ℕ → ℕ → Bool  -- by the number of effects, and by recipient

pub record Upload : Type 0 where
  pub admin_id : ℕ
  pub part : ℕ
  pub is_acknowledged : Bool

pub record Session : Type 0 where
  pub rows : List Delivery
  pub saved : List Delivery
  pub uploads : List Upload
  pub ticks : ℕ

-- A step of the round: it returns or raises, and leaves the session.
abbrev pub Exec : Type 0 → Type 0
Exec A = Session → Outcome A × Session

infixl 5 ◌>>=◌ ◌>>◌
abbrev pub bind_outcome : {A B : Type 0} → Outcome A × Session → (A → Exec B) → Outcome B × Session
bind_outcome (returns a, s) f = f a s
bind_outcome (raises e, s) f = (raises e, s)

abbrev pub ◌>>=◌ : {A B : Type 0} → Exec A → (A → Exec B) → Exec B
◌>>=◌ m f s = bind_outcome (m s) f

abbrev pub ◌>>◌ : {B : Type 0} → Exec (Unit {0}) → Exec B → Exec B
◌>>◌ m k s = bind_outcome (m s) (λ _. k)

abbrev pub pure : {A : Type 0} → A → Exec A
pure a s = (returns a, s)

-- await session.commit()
abbrev pub commit : Exec (Unit {0})
commit s = (returns tt, record s { saved = s.rows })

abbrev is_row_of : ℕ → Delivery → Bool
is_row_of admin_id d = d.admin_id == admin_id

-- The attributes of a row object are assigned.
abbrev pub put : Delivery → Exec (Unit {0})
put d s = (returns tt, record s { rows = update (is_row_of d.admin_id) (λ _. d) s.rows })

abbrev pub now : World → Exec ℕ
now w s = (returns (w.clock s.ticks), record s { ticks = suc s.ticks })

abbrev pub same_owner : Option String → Option String → Bool
same_owner none o = is_none o
same_owner (some a) o = holds_text o a

boundary_at : Option String → Bool → Peek → Session → Outcome (Unit {0}) × Session
boundary_at owner check_cancel row s =
    if not (same_owner owner row.lease_owner)
    then (raises (runtime_error "run lease ownership lost"), s)
    else if check_cancel && row.cancel_requested
    then (raises cancelled_error, s)
    else (returns tt, s)

-- _cancel_boundary
unfoldable pub boundary : World → Option String → Bool → Exec (Unit {0})
unfolding boundary_at
boundary w owner check_cancel s =
    boundary_at owner check_cancel (w.peek s.ticks) (record s { ticks = suc s.ticks })

abbrev pub is_ack : Answer → Bool
is_ack (acknowledged _ _) = true
is_ack (refused _) = false
is_ack broken_off = false

-- build_backup_caption and its label, outside of `try`
abbrev pub build_caption : World → Exec (Unit {0})
build_caption w s = (w.caption s.ticks, record s { ticks = suc s.ticks })

-- transport.send_file, under the upload's timeout
abbrev pub send_file : World → ℕ → ℕ → Exec Answer
send_file w admin_id part s = (
  returns (w.upload s.ticks),
  record s {
    uploads =
        s.uploads
        ++ record { admin_id = admin_id; part = part; is_acknowledged = is_ack (w.upload s.ticks) }
          ∷ [];
    ticks = suc s.ticks;
  },
)

abbrev pub draw : World → Exec Jitter
draw w s = (returns (w.jitter s.ticks), record s { ticks = suc s.ticks })

abbrev pub authorized : World → ℕ → Exec Bool
authorized w admin_id s =
    (returns (w.is_authorized s.ticks admin_id), record s { ticks = suc s.ticks })
