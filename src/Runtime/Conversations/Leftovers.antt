-- ===== src/Runtime/Conversations/Leftovers.antt =====
-- No secret outlives the conversation that it was typed in.
use backup_telebot.Prelude.{
  ◌||◌, if◌then◌else◌, ap, subst, ℕ, ◌+◌, ◌≤◌, ◌≡◌, ◌⊎◌, inl, inr, refl, Bool, true, false, not,
  Option, none, some, List, [], ◌∷◌, arith, ◌==◌, leb, ==_iff, find, keep, update, count,
  count-append, count-update_same, All-of, count-keep_le, count-keep_other, count-keep_none,
  Bool-cases,
}
use backup_telebot.Store.{returns, raises}
use backup_telebot.Runtime.State.{State, state_eq}
use backup_telebot.Runtime.Secrets
use backup_telebot.Runtime.Secrets.{Secret, SecretStore, is_of, touch}
use backup_telebot.Runtime.Conversations
use backup_telebot.Runtime.Conversations.{
  get_from, back_from, back_to, invalid_from, transition_from, has_expired, Conversation, FsmStore,
  belongs, forget, forget_all, transition, back, invalid, advance, retreat, blame,
}

-- The methods of the store, as calls.
pub data Call (D : Type 0) : Type 0 where
  gets : ℕ → ℕ → Call D
  sets : ℕ → State → D → ℕ → Call D
  moves : ℕ → State → State → (ℕ → ℕ) → Call D
  backs : ℕ → (ℕ → ℕ) → Call D
  blames : ℕ → (ℕ → ℕ) → Call D
  clears : ℕ → Call D
  prunes : (ℕ → ℕ) → Call D
  clears_all : Call D

module _ {D : Type 0} where
  unfoldable pub apply : Call D → FsmStore D → FsmStore D
  apply (gets u now) s = (Conversations.get u now s).1
  apply (sets u state values now) s = (Conversations.set u state values now s).1
  apply (moves u expected new c) s = (transition u expected new c s).1
  apply (backs u c) s = (back u c s).1
  apply (blames u c) s = (invalid u c s).1
  apply (clears u) s = Conversations.clear u s
  apply (prunes c) s = (Conversations.prune_expired c s).1
  apply clears_all s = Conversations.clear_all s

  -- The user has a conversation, or no secret.
  abbrev pub IsCovered : ℕ → FsmStore D → Type 0
  IsCovered u s = (1 ≤ count (belongs u) s.states) ⊎ (count (is_of u) s.secrets.items ≡ 0)

  forget-IsCovered : (u v : ℕ) (s : FsmStore D) → IsCovered u s → IsCovered u (forget v s)
  unfolding Secrets.clear
  forget-IsCovered u v s h = elim (Bool-cases (v == u)) [
    | inl e ↦ inr (
        subst (λ x. count (is_of x) (keep (λ i. not (is_of v i)) s.secrets.items) ≡ 0)
          ((==_iff v u).0 e) (count-keep_none (is_of v) s.secrets.items))
    | inr e ↦ elim h [
      | inl some_left ↦ inl (
          omega (
            arith,
            some_left,
            count-keep_other (belongs u) (λ (i : Conversation D). not (belongs v i)) s.states
                (λ i k. ground (arith, e, k)),
          ))
      | inr none_left ↦
          inr (
            omega
              (arith, none_left, count-keep_le (is_of u) (λ i. not (is_of v i)) s.secrets.items))
    ]
  ]

  -- An update of conversations that keeps their users, with the secrets touched.
  touch-IsCovered :
      (u v now : ℕ) (f : Conversation D → Conversation D) (s : FsmStore D)
      → ((i : Conversation D) → (f i).user_id ≡ i.user_id)
      → IsCovered u s
      → IsCovered u
          (record s { states = update (belongs v) f s.states; secrets = touch v now s.secrets })
  unfolding touch
  touch-IsCovered u v now f s keeps (inl h) = inl (
      omega (
        arith,
        h,
        count-update_same (belongs u) (belongs v) f s.states
            (All-of _ s.states (λ i _. ap (λ k. k == u) (keeps i))),
      ))
  touch-IsCovered u v now f s keeps (inr h) = inr (
      omega (
        arith,
        h,
        count-update_same (is_of u) (is_of v)
            (λ (i : Secret). record i { expires_at = now + s.secrets.timeout }) s.secrets.items
            (All-of _ s.secrets.items (λ i _. refl)),
      ))

  if-IsCovered :
      (u : ℕ) (b : Bool) (s s' : FsmStore D)
      → IsCovered u s
      → IsCovered u s'
      → IsCovered u (if b then s else s')
  if-IsCovered u true s s' h k = h
  if-IsCovered u false s s' h k = k

  choice-IsCovered :
      {A : Type 0} (u : ℕ) (b : Bool) (x y : A × FsmStore D)
      → IsCovered u x.1
      → IsCovered u y.1
      → IsCovered u (if b then x else y).1
  choice-IsCovered u true x y h k = h
  choice-IsCovered u false x y h k = k

  back_to-IsCovered :
      (u v : ℕ) (c : ℕ → ℕ) (i : Conversation D) (o : Option (State × List State)) (s : FsmStore D)
      → IsCovered u s
      → IsCovered u (back_to v c i o s).1
  back_to-IsCovered u v c i none s h = h
  back_to-IsCovered u v c i (some (previous, earlier)) s h =
      touch-IsCovered u v (c 2) (retreat previous earlier (c 1 + s.timeout)) s (λ j. refl) h

  set-IsCovered :
      (u v : ℕ) (state : State) (values : D) (now : ℕ) (s : FsmStore D)
      → IsCovered u s
      → IsCovered u (Conversations.set v state values now s).1
  unfolding Conversations.set Secrets.clear
  set-IsCovered u v state values now s h = elim (forget-IsCovered u v s h) [
    | inl k ↦ inl (
        omega (
          arith,
          k,
          count-append (belongs u) (keep (λ i. not (belongs v i)) s.states) (
              record {
                user_id = v;
                state = state;
                expires_at = now + s.timeout;
                values = values;
                option_ids = [];
                invalid_inputs = 0;
                history = [];
              }
              ∷ []),
        ))
    | inr k ↦ inr k
  ]

  from-IsCovered :
      (u v : ℕ) (c : ℕ → ℕ) (o : Option (Conversation D)) (s : FsmStore D)
      → IsCovered u s
      → IsCovered u (get_from v (c 0) o s).1
        × IsCovered u (back_from v c o s).1
        × IsCovered u (invalid_from v c o s).1
        × ((expected new : State) → IsCovered u (transition_from v expected new c o s).1)
  from-IsCovered u v c none s h = (h, h, h, λ e n. h)
  from-IsCovered u v c (some i) s h = (
    choice-IsCovered u (has_expired (c 0) i) (none, forget v s) (some i, s)
        (forget-IsCovered u v s h) h,
    choice-IsCovered u (has_expired (c 0) i) (none, forget v s)
        (back_to v c i (Conversations.pop_last i.history) s) (forget-IsCovered u v s h)
        (back_to-IsCovered u v c i (Conversations.pop_last i.history) s h),
    choice-IsCovered u (leb s.invalid_limit (i.invalid_inputs + 1)) (true, forget v s) (false, _)
        (forget-IsCovered u v s h)
        (touch-IsCovered u v (c 1) (blame (c 0 + s.timeout)) s (λ j. refl) h),
    λ e n.
        choice-IsCovered u (not (state_eq i.state e) || has_expired (c 0) i)
          (raises _, (if has_expired (c 1) i then forget v s else s)) (returns _, _)
          (if-IsCovered u (has_expired (c 1) i) (forget v s) s (forget-IsCovered u v s h) h)
          (touch-IsCovered u v (c 3) (advance e n (c 2 + s.timeout)) s (λ j. refl) h),
  )

  forget_all-IsCovered :
      (u : ℕ) (gone : List (Conversation D)) (s : FsmStore D)
      → IsCovered u s
      → IsCovered u (forget_all gone s)
  unfolding forget_all
  forget_all-IsCovered u [] s h = h
  forget_all-IsCovered u (i ∷ gone) s h =
      forget_all-IsCovered u gone (forget i.user_id s) (forget-IsCovered u i.user_id s h)

  prune-IsCovered :
      (u : ℕ) (c : ℕ → ℕ) (s : FsmStore D)
      → IsCovered u s
      → IsCovered u (Conversations.prune_expired c s).1
  unfolding Conversations.prune_expired Secrets.prune_expired
  prune-IsCovered u c s h =
      let kept = forget_all (keep (has_expired (c 0)) s.states) s in
      elim (forget_all-IsCovered u (keep (has_expired (c 0)) s.states) s h) [
        | inl k ↦ inl k
        | inr k ↦ inr (
            omega (
              arith,
              k,
              count-keep_le (is_of u) (λ i. not (Secrets.is_expired (c 1) i)) kept.secrets.items,
            ))
      ]

  -- Whatever method is called for whatever user: if a user had a conversation or no secret before,
  -- then so after. So a call that ends a conversation leaves no secret of its user.
  pub apply-IsCovered :
      (u : ℕ) (c : Call D) (s : FsmStore D) → IsCovered u s → IsCovered u (apply c s)
  unfolding apply Conversations.get transition back invalid Conversations.clear
      Conversations.clear_all Secrets.clear_all count
  apply-IsCovered u (gets v now) s h =
      (from-IsCovered u v (λ _. now) (find (belongs v) s.states) s h).0
  apply-IsCovered u (sets v state values now) s h = set-IsCovered u v state values now s h
  apply-IsCovered u (moves v expected new c) s h =
      (from-IsCovered u v c (find (belongs v) s.states) s h).3 expected new
  apply-IsCovered u (backs v c) s h = (from-IsCovered u v c (find (belongs v) s.states) s h).1
  apply-IsCovered u (blames v c) s h = (from-IsCovered u v c (find (belongs v) s.states) s h).2
  apply-IsCovered u (clears v) s h = forget-IsCovered u v s h
  apply-IsCovered u (prunes c) s h = prune-IsCovered u c s h
  apply-IsCovered u clears_all s h = inr refl
