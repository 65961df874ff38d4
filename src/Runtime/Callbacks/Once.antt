-- ===== src/Runtime/Callbacks/Once.antt =====
-- A button works once, and only for the user who received it.
use backup_telebot.Prelude.{
  ap, ◌∙◌, eq_iff, ℕ, ◌+◌, ◌<◌, ◌≡◌, ◌≢◌, refl, String, not, Option, none, some, List, [], ◌∷◌,
  ◌++◌, arith, ltb, find, find-true, keep, find-snoc, find-keep-none, str_eq_self,
}
use backup_telebot.Runtime.Callbacks.{
  CallbackStore, CallbackAction, has_token, remove, issue, redeem, resolve_detailed, resolve,
  if_accepted,
}

redeem_cases :
    (actor now : ℕ) (o : Option CallbackAction) (s : CallbackStore) (i : CallbackAction)
    → let r = redeem actor now o s in
      if_accepted r.0 ≡ some i
      → (o ≡ some i) × (i.actor_id ≡ actor) × (now < i.expires_at) × (r.1 ≡ remove i.token s)
redeem_cases actor now none s i h = ground arith
redeem_cases actor now (some j) s i h = ground (arith, h)

-- A token that is removed is gone.
removed :
    (token : String) (s : CallbackStore) (actor now : ℕ)
    → resolve actor (some ("v1", token)) now (remove token s) ≡ (none, remove token s)
unfolding resolve resolve_detailed
removed token s actor now =
    ap
      (λ o. (
        if_accepted (redeem actor now o (remove token s)).0,
        (redeem actor now o (remove token s)).1,
      ))
      (find-keep-none (has_token token) s.items)

module _ (actor : ℕ) (token : String) (now : ℕ) (s : CallbackStore) where
  -- A button that is accepted was given to the user who presses it and has not expired; and from
  -- then on nobody gets an action of it, at any time.
  pub resolve_once :
      (i : CallbackAction)
      → (resolve actor (some ("v1", token)) now s).0 ≡ some i
      → (i.actor_id ≡ actor)
        × (now < i.expires_at)
        × ((other later : ℕ)
            → (resolve other
                (some ("v1", token))
                later
                (resolve actor (some ("v1", token)) now s).1).0
              ≡ none)
  unfolding resolve resolve_detailed
  resolve_once i h =
      let c = redeem_cases actor now (find (has_token token) s.items) s i h in
      let gone : (resolve actor (some ("v1", token)) now s).1 ≡ remove token s =
        c.3
        ∙ ap (λ k. remove k s)
            ((eq_iff i.token token).0 (find-true (has_token token) s.items c.0)) in
      (
        c.1,
        c.2,
        λ other later.
            ap (λ x. (resolve other (some ("v1", token)) later x).0) gone
            ∙ ap (λ x. x.0) (removed token s other later),
      )

module _ (actor : ℕ) (action : String) (target : ℕ) (token : String) (now : ℕ)
    (s : CallbackStore) where
  -- A button that is issued, and pressed before it expires, gives its user the action and target
  -- that it was issued for; pressed by anybody else, it gives nothing and stays as it is.
  pub resolve-issue :
      (later other : ℕ)
      → later < now + s.timeout
      → other ≢ actor
      → let r = issue actor action target token now s in
        ((i : CallbackAction) × ((resolve actor (some r.0) later r.1).0 ≡ some i)
          × (i.action ≡ action)
          × (i.target_id ≡ target))
        × (resolve other (some r.0) later r.1 ≡ (none, r.1))
  unfolding resolve resolve_detailed issue
  resolve-issue later other early ne =
      ((issued, rw found (ground (arith, early)), refl, refl), rw found (ground (arith, ne)))
    where
      issued : CallbackAction
      issued = record {
        token = token;
        actor_id = actor;
        action = action;
        target_id = target;
        expires_at = now + s.timeout;
      }

      kept : List CallbackAction
      kept = keep (λ (i : CallbackAction). ltb now i.expires_at) s.items

      found :
          find (has_token token) (keep (λ i. not (has_token token i)) kept ++ issued ∷ [])
          ≡ some issued
      found =
          find-snoc (has_token token) (keep (λ i. not (has_token token i)) kept) issued
            (find-keep-none (has_token token) kept) (str_eq_self token)
