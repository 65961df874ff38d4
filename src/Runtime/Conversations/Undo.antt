-- ===== src/Runtime/Conversations/Undo.antt =====
-- A step back undoes a step forward.
use backup_telebot.Runtime.Secrets.{touch}
use backup_telebot.Prelude.{
  ℕ, ◌+◌, ◌<◌, ◌≡◌, refl, some, List, [], ◌∷◌, ◌++◌, arith, find, update, find-update,
}
use backup_telebot.Store.{returns}
use backup_telebot.Runtime.State.{State, state_eq_self}
use backup_telebot.Runtime.Conversations.{
  transition_from, Conversation, FsmStore, belongs, pop_last, transition, back, advance, retreat,
}

pop_last-snoc : {A : Type 0} (xs : List A) (x : A) → pop_last (xs ++ x ∷ []) ≡ some (x, xs)
unfolding pop_last
pop_last-snoc [] x = refl
pop_last-snoc (y ∷ ys) x = rw (pop_last-snoc ys x) refl

module _ {D : Type 0} (user_id : ℕ) (new : State) (c c' : ℕ → ℕ) (s : FsmStore D)
    (i : Conversation D) where
  -- A live conversation that is moved on from its state and then back, before it expires, is in its
  -- old state again, with its old history and its values.
  pub back-transition :
      find (belongs user_id) s.states ≡ some i
      → c 0 < i.expires_at
      → c' 0 < c 2 + s.timeout
      → (j : Conversation D) × ((back user_id c' (transition user_id i.state new c s).1).0 ≡ some j)
        × (j.state ≡ i.state)
        × (j.history ≡ i.history)
        × (j.values ≡ i.values)
        × (j.user_id ≡ i.user_id)
  unfolding transition back
  back-transition found live early =
      let moved = advance i.state new (c 2 + s.timeout) in
      let after = record s {
        states = update (belongs user_id) moved s.states;
        secrets = touch user_id (c 3) s.secrets;
      } in
      let forward : transition_from user_id i.state new c (some i) s ≡ (returns (moved i), after) =
        ground (arith, live, state_eq_self i.state) in
      (
        retreat i.state i.history (c' 1 + s.timeout) (moved i),
        rw (found, forward, find-update (belongs user_id) moved s.states (λ j. refl) found)
            (ground (arith, early, pop_last-snoc i.history i.state)),
        refl,
        refl,
        refl,
        refl,
      )
