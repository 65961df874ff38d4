-- ===== src/Delivery/Recipient/Sound.antt =====
-- The row that a recipient's turn leaves: its attempts, its next instant and its end.
use backup_telebot.Prelude.{
  suc, sym, ◌∙◌, ℕ, ◌≤◌, ◌<◌, ◌≡◌, refl, ◌⊎◌, inl, inr, String, Bool, true, false, ◌||◌, Option,
  List, [], ◌∷◌, arith, ltb, leb, ltb→lt, is_some, if◌then◌else◌, length,
}
use backup_telebot.Domain.{is_pending, is_succeeded, is_failed}
use backup_telebot.Store.{Outcome, returns, raises, Delivery}
use backup_telebot.Delivery.Backoff.{Policy, is_due}
use backup_telebot.Delivery.Failure.{DeliveryErrorKind, classify_delivery_error}
use backup_telebot.Delivery.Session.{
  build_caption, broken_off, Answer, acknowledged, refused, World, Session, Exec, bind_outcome,
  boundary, pure,
}
use backup_telebot.Delivery.Recipient.{
  Artifact, PartResult, stopped, sent, is_permanent, save, retry_or_fail, start_attempt, on_failure,
  on_acknowledged, conclude, send_part, send_parts, parts_from, close_row, send_if_authorized,
  serve, serve_if_due, deliver_to,
}

-- Of an effect that returns, what it returns.
abbrev pub Post : {A : Type 0} → (A → Type 0) → Outcome A × Session → Type 0
Post P (returns a, s) = P a
Post P (raises e, s) = Unit

bind-Post :
    {A B : Type 0} (P : A → Type 0) (Q : B → Type 0) (m : Outcome A × Session) (f : A → Exec B)
    → Post P m
    → ((a : A) (s : Session) → P a → Post Q (f a s))
    → Post Q (bind_outcome m f)
bind-Post P Q (returns a, s) f h k = k a s h
bind-Post P Q (raises e, s) f h k = tt

-- After an effect of which nothing is known.
then-Post :
    {A B : Type 0} (Q : B → Type 0) (m : Outcome A × Session) (f : A → Exec B)
    → ((a : A) (s : Session) → Post Q (f a s))
    → Post Q (bind_outcome m f)
then-Post Q (returns a, s) f k = k a s
then-Post Q (raises e, s) f k = tt

if-Post :
    {A : Type 0} (P : A → Type 0) (b : Bool) (x y : Exec A) (s : Session)
    → (b ≡ true → Post P (x s))
    → (b ≡ false → Post P (y s))
    → Post P ((if b then x else y) s)
if-Post P true x y s h k = h refl
if-Post P false x y s h k = k refl

module _ (p : Policy) where
  -- A row that may be tried again.
  abbrev pub IsOpen : Delivery → Type 0
  IsOpen d =
      (is_pending d.status ≡ true)
      × (d.part_attempts < p.max_attempts)
      × (is_some d.next_attempt_at ≡ true)

  abbrev pub IsClosed : Delivery → Type 0
  IsClosed d =
      (is_failed d.status ≡ true)
      × (d.part_attempts ≤ p.max_attempts)
      × (is_some d.next_attempt_at ≡ false)

  abbrev pub IsSettled : Delivery → Type 0
  IsSettled d = IsOpen d ⊎ IsClosed d

  -- A row waits for an instant exactly when it is pending; its part has not been tried more often
  -- than allowed; and it succeeds only with all `total` parts acknowledged.
  pub record IsSound (total : ℕ) (d : Delivery) : Type 0 where
    pub timed : is_pending d.status ≡ is_some d.next_attempt_at
    pub limited : d.part_attempts ≤ p.max_attempts
    pub complete : is_succeeded d.status ≡ true → total < d.next_part

  abbrev OfPart : PartResult → Type 0
  OfPart (stopped d) = IsSettled d
  OfPart (sent d) = IsOpen d

  module _ (w : World) (owner : Option String) where
    retry_or_fail-Post :
        (d : Delivery) (name : String) (k : DeliveryErrorKind × Option ℕ) (s : Session)
        → is_pending d.status ≡ true
        → d.part_attempts ≤ p.max_attempts
        → Post IsSettled (retry_or_fail w p d name k s)
    unfolding retry_or_fail save
    retry_or_fail-Post d name (kind, wait) s h l =
        if-Post IsSettled (is_permanent kind || leb p.max_attempts d.part_attempts) _ _ s
          (λ e. inr (refl, l, refl)) (λ e. inl (h, ground (arith, e, l), refl))

    conclude-Post :
        (number : ℕ) (d : Delivery) (answer : Answer) (s : Session)
        → is_pending d.status ≡ true
        → d.part_attempts ≤ p.max_attempts
        → 1 ≤ p.max_attempts
        → Post OfPart (conclude w p owner number d answer s)
    unfolding conclude on_failure on_acknowledged save
    conclude-Post number d (refused e) s h l m =
        bind-Post IsSettled OfPart (on_failure w p owner d e s) (λ d'. pure (stopped d'))
          (then-Post IsSettled (boundary w owner true s) _
            (λ _ s'. retry_or_fail-Post d e.class_name (classify_delivery_error e) s' h l))
          (λ d' s' q. q)
    conclude-Post number d broken_off s h l m = tt
    conclude-Post number d (acknowledged message_id file_id) s h l m =
        bind-Post IsOpen OfPart (on_acknowledged w owner d number message_id file_id s)
          (λ d'. pure (sent d'))
          (then-Post IsOpen (boundary w owner false s) _ (λ _ s'. (h, m, refl))) (λ d' s' q. q)

    send_part-Post :
        (a : Artifact) (d : Delivery) (s : Session)
        → IsOpen d
        → Post OfPart (send_part w p owner a d s)
    unfolding send_part save
    send_part-Post a d s (h, l, t) = then-Post OfPart (boundary w owner true s) _ (λ _ s'.
        then-Post OfPart (build_caption w _) _ (λ _ s''.
          conclude-Post a.number (start_attempt p (w.jitter (suc s'.ticks)) (w.clock s'.ticks) d) _
            _ h (omega (arith, l)) (omega (arith, l))))

    send_parts-Post :
        (artifacts : List Artifact) (d : Delivery) (s : Session)
        → IsOpen d
        → Post IsSettled (send_parts w p owner artifacts d s)
    unfolding send_parts
    send_parts-Post [] d s h = inl h
    send_parts-Post (a ∷ rest) d s h =
        bind-Post OfPart IsSettled (send_part w p owner a d s) _ (send_part-Post a d s h)
          (next (send_parts-Post rest))
      where
        next :
            ((d' : Delivery) (s' : Session)
              → IsOpen d'
              → Post IsSettled (send_parts w p owner rest d' s'))
            → (r : PartResult) (s' : Session) → OfPart r
            → Post IsSettled (
                (elim r as (λ _. Exec Delivery) [
                  | stopped d' ↦ pure d'
                  | sent d' ↦ send_parts w p owner rest d'
                ])
                  s')
        next again (stopped d') s' q = q
        next again (sent d') s' q = again d' s' q

    close_row-Post :
        (total : ℕ) (d : Delivery) (s : Session)
        → IsSettled d
        → Post (IsSound total) (close_row w total d s)
    unfolding close_row save
    close_row-Post total d s h =
        if-Post (IsSound total) (ltb total d.next_part) _ _ s
          (λ e. record {
            timed = refl;
            limited = ground (arith, h);
            complete = λ _. ltb→lt total d.next_part e;
          })
          (λ e. record {
            timed = ground (arith, h);
            limited = ground (arith, h);
            complete = λ c. ground (arith, h, c);
          })

    send-Post :
        (artifacts : List Artifact) (d : Delivery) (ok : Bool) (s : Session)
        → IsOpen d
        → Post (IsSound (length artifacts)) (send_if_authorized w p owner artifacts d ok s)
    unfolding send_if_authorized save
    send-Post artifacts d false s (h, l, t) = record {
      timed = refl;
      limited = omega (arith, l);
      complete = λ c. ground (arith, c);
    }
    send-Post artifacts d true s h =
        bind-Post IsSettled (IsSound (length artifacts))
          (send_parts w p owner (parts_from d.next_part artifacts) d s) _
          (send_parts-Post (parts_from d.next_part artifacts) d s h)
          (close_row-Post (length artifacts))

    serve-Post :
        (artifacts : List Artifact) (d : Delivery) (s : Session)
        → is_pending d.status ≡ true
        → IsSound (length artifacts) d
        → Post (IsSound (length artifacts)) (serve w p owner artifacts d s)
    unfolding serve save
    serve-Post artifacts d s h k =
        if-Post (IsSound (length artifacts)) (leb p.max_attempts d.part_attempts) _ _ s
          (λ e. record { timed = refl; limited = k.limited; complete = λ c. ground (arith, c) })
          (λ e.
            send-Post artifacts d (w.is_authorized s.ticks d.admin_id) _
              (h, ground (arith, e), sym k.timed ∙ h))

    -- A recipient's turn, with a row that is sound: it waits for an instant exactly when it is
    -- pending, its part has not been tried more often than allowed, and it has succeeded only past
    -- the last part. Where the turn ends without an exception, the row is sound again, whatever
    -- Telegram answers and whoever is revoked meanwhile.
    pub deliver_to-IsSound :
        (artifacts : List Artifact) (d : Delivery) (s : Session)
        → IsSound (length artifacts) d
        → Post (IsSound (length artifacts)) (deliver_to w p owner artifacts d s)
    unfolding deliver_to serve_if_due
    deliver_to-IsSound artifacts d s k =
        then-Post (IsSound (length artifacts)) (boundary w owner true s) _ (λ _ s'.
          if-Post (IsSound (length artifacts)) (is_pending d.status) _ _ s'
            (λ h.
              if-Post (IsSound (length artifacts)) (is_due d.next_attempt_at (w.clock s'.ticks)) _ _
                _ (λ _. serve-Post artifacts d _ h k) (λ _. k))
            (λ _. k))
