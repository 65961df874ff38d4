-- ===== src/Delivery/Recipient/Parts.antt =====
-- The parts that a recipient acknowledges come in order, without a gap and without a repeat.
use mathlib.Core.List.{append-nil}
use backup_telebot.Prelude.{
  update, ap, subst, sym, ◌∙◌, subst, leb, ◌||◌, ℕ, suc, zero, ◌+◌, ◌≡◌, refl, ◌⊎◌, inl, inr,
  String, Bool, true, false, Option, List, [], ◌∷◌, ◌++◌, arith, ◌==◌, ◌&&◌, if◌then◌else◌,
}
use backup_telebot.Store.{cancelled_error, runtime_error, Outcome, returns, raises, Delivery}
use backup_telebot.Delivery.Backoff.{Policy}
use backup_telebot.Delivery.Session.{
  send_file, broken_off, bind_outcome, refused, acknowledged, Answer, is_ack, World, Session,
  Upload, ◌>>=◌, boundary,
}
use backup_telebot.Delivery.Recipient.{
  pure, start_attempt, classify_delivery_error, Answer, is_permanent, conclude, postpone, draw, now,
  error_text, give_up, save, DeliveryErrorKind, retry_or_fail, Artifact, PartResult, stopped, sent,
  send_part, send_parts, on_failure, on_acknowledged,
}

-- The parts that a recipient has acknowledged, in the order of the uploads.
unfoldable pub acked : ℕ → List Upload → List ℕ
acked admin_id [] = []
acked admin_id (u ∷ rest) =
    let later = acked admin_id rest in
    if (u.admin_id == admin_id) && u.is_acknowledged then u.part ∷ later else later

acked-append : (i : ℕ) (us vs : List Upload) → acked i (us ++ vs) ≡ acked i us ++ acked i vs
unfolding acked
acked-append i [] vs = refl
acked-append i (u ∷ us) vs = ground (arith, acked-append i us vs)

acked_one :
    (i n : ℕ) (ok : Bool) (us : List Upload)
    → acked i (us ++ record { admin_id = i; part = n; is_acknowledged = ok } ∷ [])
      ≡ (if ok then acked i us ++ n ∷ [] else acked i us)
unfolding acked
acked_one i n ok [] = ground arith
acked_one i n ok (u ∷ us) = ground (arith, acked_one i n ok us)

abbrev tick : Session → Session
tick s = record s { ticks = suc s.ticks }

boundary_cases :
    (w : World) (owner : Option String) (check : Bool) (s : Session)
    → (boundary w owner check s ≡ (returns tt, tick s))
      ⊎ (boundary w owner check s ≡ (raises (runtime_error "run lease ownership lost"), tick s))
      ⊎ (boundary w owner check s ≡ (raises cancelled_error, tick s))
unfolding boundary
boundary_cases w owner check s = ground arith

-- An effect that leaves the acknowledged parts, and returns a row at a given place in the artifact.
abbrev Quiet : ℕ → ℕ → List ℕ → Outcome Delivery × Session → Type 0
Quiet i next base (returns d, s) =
    (acked i s.uploads ≡ base) × (d.next_part ≡ next) × (d.admin_id ≡ i)
Quiet i next base (raises e, s) = acked i s.uploads ≡ base

save-Quiet :
    (d : Delivery) (s : Session)
    → Quiet d.admin_id d.next_part (acked d.admin_id s.uploads) (save d s)
unfolding save
save-Quiet d s = (refl, refl, refl)

retry_or_fail-Quiet :
    (w : World) (p : Policy) (d : Delivery) (name : String) (k : DeliveryErrorKind × Option ℕ)
    (s : Session)
    → Quiet d.admin_id d.next_part (acked d.admin_id s.uploads) (retry_or_fail w p d name k s)
unfolding retry_or_fail
retry_or_fail-Quiet w p d name (kind, wait) s =
    go (is_permanent kind || leb p.max_attempts d.part_attempts)
  where
    go :
        (b : Bool)
        → Quiet d.admin_id d.next_part (acked d.admin_id s.uploads) (
            (if b
                then save (give_up (error_text kind name) d)
                else do t ← now w; j ← draw w; save (postpone p j t (error_text kind name) wait d))
              s)
    go true = save-Quiet (give_up (error_text kind name) d) s
    go false =
        save-Quiet
          (postpone p (w.jitter (suc s.ticks)) (w.clock s.ticks) (error_text kind name) wait d)
          (tick (tick s))

abbrev OfResult : ℕ → ℕ → ℕ → List ℕ → Session → PartResult → Type 0
OfResult i next n base s (stopped d) =
    (acked i s.uploads ≡ base) × (d.next_part ≡ next) × (d.admin_id ≡ i)
OfResult i next n base s (sent d) =
    (acked i s.uploads ≡ base ++ n ∷ []) × (d.next_part ≡ n + 1) × (d.admin_id ≡ i)

-- What sending one part does to the acknowledged parts of its recipient.
abbrev PartSpec : ℕ → ℕ → ℕ → List ℕ → Outcome PartResult × Session → Type 0
PartSpec i next n base (returns r, s) = OfResult i next n base s r
PartSpec i next n base (raises e, s) =
    (acked i s.uploads ≡ base) ⊎ (acked i s.uploads ≡ base ++ n ∷ [])

stopped-PartSpec :
    (i next n : ℕ) (base : List ℕ) (p : Outcome Delivery × Session)
    → Quiet i next base p
    → PartSpec i next n base (bind_outcome p (λ d. pure (stopped d)))
stopped-PartSpec i next n base (returns d, s) q = q
stopped-PartSpec i next n base (raises e, s) q = inl q

conclude-PartSpec :
    (w : World) (p : Policy) (owner : Option String) (n : ℕ) (d : Delivery) (answer : Answer)
    (s : Session) (base : List ℕ)
    → acked d.admin_id s.uploads ≡ (if is_ack answer then base ++ n ∷ [] else base)
    → PartSpec d.admin_id d.next_part n base (conclude w p owner n d answer s)
unfolding conclude on_failure on_acknowledged save
conclude-PartSpec w p owner n d (refused e) s base h = elim (boundary_cases w owner true s) [
  | inl k ↦ rw k (
      stopped-PartSpec d.admin_id d.next_part n base
        (retry_or_fail w p d e.class_name (classify_delivery_error e) (tick s))
        (subst
          (λ b.
            Quiet d.admin_id d.next_part b
              (retry_or_fail w p d e.class_name (classify_delivery_error e) (tick s)))
          h (retry_or_fail-Quiet w p d e.class_name (classify_delivery_error e) (tick s))))
  | inr (inl k) ↦ rw k (inl h)
  | inr (inr k) ↦ rw k (inl h)
]
conclude-PartSpec w p owner n d broken_off s base h = inl h
conclude-PartSpec w p owner n d (acknowledged m f) s base h =
    elim (boundary_cases w owner false s) [
      | inl k ↦ rw k (h, refl, refl)
      | inr (inl k) ↦ rw k (inr h)
      | inr (inr k) ↦ rw k (inr h)
    ]

pub send_part-PartSpec :
    (w : World) (p : Policy) (owner : Option String) (a : Artifact) (d : Delivery) (s : Session)
    → PartSpec d.admin_id d.next_part a.number
        (acked d.admin_id s.uploads)
        (send_part w p owner a d s)
unfolding send_part save
send_part-PartSpec w p owner a d s = elim (boundary_cases w owner true s) [
  | inl k ↦ rw k (with_caption (w.caption (suc (suc (suc s.ticks)))))
  | inr (inl k) ↦ rw k (inl refl)
  | inr (inr k) ↦ rw k (inl refl)
]
  where
    begun : Delivery
    begun = start_attempt p (w.jitter (suc (suc s.ticks))) (w.clock (suc s.ticks)) d

    ready : Session
    ready = record s {
      rows = update (λ r. r.admin_id == d.admin_id) (λ _. begun) s.rows;
      saved = update (λ r. r.admin_id == d.admin_id) (λ _. begun) s.rows;
      ticks = suc (suc (suc (suc s.ticks)));
    }

    with_caption :
        (o : Outcome (Unit {0}))
        → PartSpec d.admin_id d.next_part a.number (acked d.admin_id s.uploads) (
            bind_outcome
              (o, ready)
              (λ _. send_file w d.admin_id a.number >>= λ answer.
                conclude w p owner a.number begun answer))
    with_caption (raises e) = inl refl
    with_caption (returns t) =
        conclude-PartSpec w p owner a.number begun (w.upload (suc (suc (suc (suc s.ticks))))) _
          (acked d.admin_id s.uploads)
          (acked_one d.admin_id a.number (is_ack (w.upload (suc (suc (suc (suc s.ticks))))))
            s.uploads)

-- The numbers from `n` on, `k` of them.
unfoldable pub range : ℕ → ℕ → List ℕ
range n zero = []
range n (suc k) = n ∷ range (suc n) k

-- The artifacts are numbered in sequence from `n`.
abbrev pub AreNumbered : ℕ → List Artifact → Type 0
AreNumbered n [] = Unit
AreNumbered n (a ∷ rest) = (a.number ≡ n) × AreNumbered (suc n) rest

-- The acknowledged parts after a loop over the parts from `next` on.
abbrev pub Contiguous : ℕ → ℕ → List ℕ → Outcome Delivery × Session → Type 0
Contiguous i next base (returns d, s) =
    (k : ℕ) × (acked i s.uploads ≡ base ++ range next k)
    × (d.next_part ≡ next + k)
    × (d.admin_id ≡ i)
Contiguous i next base (raises e, s) = (k : ℕ) × (acked i s.uploads ≡ base ++ range next k)

range-snoc :
    (base : List ℕ) (n k : ℕ) → (base ++ n ∷ []) ++ range (suc n) k ≡ base ++ range n (suc k)
unfolding range
range-snoc [] n k = refl
range-snoc (b ∷ base) n k = ap (λ l. b ∷ l) (range-snoc base n k)

-- After one more part, a contiguous range from the next one is one from this one.
Contiguous-step :
    (i next : ℕ) (base : List ℕ) (j next' : ℕ) (later : List ℕ) (p : Outcome Delivery × Session)
    → j ≡ i
    → next' ≡ suc next
    → later ≡ base ++ next ∷ []
    → (j ≡ i → acked j p.1.uploads ≡ acked i p.1.uploads)
    → Contiguous j next' later p
    → Contiguous i next base p
Contiguous-step i next base j next' later (returns d, s) e f g h (k, u, v, o) =
    (suc k, sym (h e) ∙ u ∙ rw (f, g) (range-snoc base next k), omega (arith, v, f), o ∙ e)
Contiguous-step i next base j next' later (raises x, s) e f g h (k, u) =
    (suc k, sym (h e) ∙ u ∙ rw (f, g) (range-snoc base next k))

module _ (w : World) (p : Policy) (owner : Option String) where
  -- The loop over the parts, with artifacts numbered in sequence from the row's next part on: what
  -- the recipient acknowledges meanwhile is a range of parts that starts at the row's next part,
  -- in order, without a gap and without a repeat, also when the loop is broken off by a lost lease
  -- or a cancellation. When the loop ends by itself, the next part of the row it leaves is the one
  -- after the last acknowledged part.
  pub send_parts-Contiguous :
      (artifacts : List Artifact) (d : Delivery) (s : Session)
      → AreNumbered d.next_part artifacts
      → Contiguous d.admin_id d.next_part
          (acked d.admin_id s.uploads)
          (send_parts w p owner artifacts d s)
  unfolding send_parts range
  send_parts-Contiguous [] d s h = (0, sym (append-nil _), omega arith, refl)
  send_parts-Contiguous (a ∷ rest) d s (first, later) =
      go (send_parts-Contiguous rest) (send_part w p owner a d s) (
        subst
          (λ n.
            PartSpec d.admin_id d.next_part n (acked d.admin_id s.uploads)
              (send_part w p owner a d s))
          first (send_part-PartSpec w p owner a d s))
    where
      Again : Type 0
      Again =
          (d' : Delivery) (s' : Session)
          → AreNumbered d'.next_part rest
          → Contiguous d'.admin_id d'.next_part (acked d'.admin_id s'.uploads)
              (send_parts w p owner rest d' s')

      go :
          Again
          → (r : Outcome PartResult × Session)
          → PartSpec d.admin_id d.next_part d.next_part (acked d.admin_id s.uploads) r
          → Contiguous d.admin_id d.next_part (acked d.admin_id s.uploads) (
              bind_outcome r
                (λ o. elim o [ stopped d' ↦ pure d' | sent d' ↦ send_parts w p owner rest d' ]))
      go again (raises e, s') (inl q) = (0, q ∙ sym (append-nil _))
      go again (raises e, s') (inr q) = (1, q)
      go again (returns (stopped d'), s') (q, e, f) =
          (0, q ∙ sym (append-nil _), omega (arith, e), f)
      go again (returns (sent d'), s') (q, e, f) =
          Contiguous-step d.admin_id d.next_part (acked d.admin_id s.uploads) d'.admin_id
            d'.next_part (acked d'.admin_id s'.uploads) _ f (omega (arith, e))
            (ap (λ i. acked i s'.uploads) f ∙ q)
            (λ x. ap (λ i. acked i (send_parts w p owner rest d' s').1.uploads) x)
            (again d' s' (subst (λ n. AreNumbered n rest) (omega (arith, e)) later))
