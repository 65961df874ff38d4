-- ===== src/Accounts/Guard.antt =====
-- Who may change what: superadmins are out of reach of account management.
use backup_telebot.Prelude.{
  is_none, ◌||◌, ap, ◌∙◌, ℕ, ◌≤◌, ◌≡◌, refl, inl, inr, String, Bool, true, false, ◌&&◌, not, Option,
  none, some, List, [], ◌∷◌, ◌++◌, arith, ◌==◌, ==_iff, if◌then◌else◌, any, is_some, length, count,
  find, update, All, All-weaken, In-unique, find-In, Bool-cases,
}
use backup_telebot.Domain.{is_superadmin}
use backup_telebot.Store.{Outcome, returns, raises}
use backup_telebot.Accounts.Tables.{
  ProfileRow, Account, Tables, Result, is_manager, managed, on_target, admin_target, target_of,
  has_user_id, change, new_account, has_telegram_id, access_events, audit_access, replace,
  replace_for_profile, validate_telegram_id, validate_name, are_profiles,
}
use backup_telebot.Accounts.Service.{
  is_assignable, checked, insert_admin, set_telegram_id, assign_to, set_language, create_admin,
  rename, change_telegram_id, set_enabled, delete, assign, assign_admins, change_language,
}
use backup_telebot.Accounts.Calls.{
  Call, creates, renames, changes_telegram_id, sets_enabled, deletes, assigns, assigns_admins,
  changes_language, apply, is_own,
}

-- The superadmins' rows, their languages left aside.
unfoldable pub guarded : List Account → List Account
guarded [] = []
guarded (u ∷ rest) =
    let more = guarded rest in
    if is_superadmin u.role then record u { language_code = "" } ∷ more else more

abbrev pub Keeps : Tables → Tables → Type 0
Keeps t t' = guarded t'.users ≡ guarded t.users

guarded-update :
    (p : Account → Bool) (f : Account → Account) (users : List Account)
    → All (λ u. p u ≡ true → is_superadmin u.role ≡ false) users
    → ((u : Account) → (f u).role ≡ u.role)
    → guarded (update p f users) ≡ guarded users
unfolding guarded update
guarded-update p f [] h k = refl
guarded-update p f (u ∷ rest) h k = ground (arith, guarded-update p f rest h.1 k, h.0, k u)

guarded-language :
    (p : Account → Bool) (code : String) (users : List Account)
    → guarded (update p (λ u. record u { language_code = code }) users) ≡ guarded users
unfolding guarded update
guarded-language p code [] = refl
guarded-language p code (u ∷ rest) = ground (arith, guarded-language p code rest)

guarded-admin :
    (users : List Account) (u : Account)
    → is_superadmin u.role ≡ false
    → guarded (users ++ u ∷ []) ≡ guarded users
unfolding guarded
guarded-admin [] u h = ground (arith, h)
guarded-admin (v ∷ rest) u h = ground (arith, guarded-admin rest u h)

access_events-users :
    (event : String) (actor_id : ℕ) (pairs : List (ℕ × ℕ)) (t : Tables)
    → (access_events event actor_id pairs t).users ≡ t.users
unfolding access_events
access_events-users event actor_id [] t = refl
access_events-users event actor_id ((p, i) ∷ rest) t = access_events-users event actor_id rest _

managed-Keeps :
    {A : Type 0} (actor : Account) (t : Tables) (r : Result A)
    → Keeps t r.1
    → Keeps t (managed actor t r).1
managed-Keeps actor t r h = elim (Bool-cases (is_manager actor)) [
  | inl e ↦ rw e h
  | inr e ↦ rw e refl
]

checked-Keeps :
    {A B : Type 0} (o : Outcome A) (t : Tables) (f : A → Result B)
    → ((a : A) → Keeps t (f a).1)
    → Keeps t (checked o t f).1
unfolding checked
checked-Keeps (raises e) t f h = refl
checked-Keeps (returns a) t f h = h a

target_of-admin :
    (o : Option Account) (admin : Account)
    → target_of o ≡ returns admin
    → (o ≡ some admin) × (is_superadmin admin.role ≡ false)
target_of-admin o admin h = ground (arith, h)

module _ (t : Tables) (once : (i : ℕ) → count (has_user_id i) t.users ≤ 1) where
  -- A change of the row that a target names, which keeps its role.
  change-Keeps :
      (i : ℕ) (admin : Account) (f : Account → Account)
      → admin_target i t ≡ returns admin
      → ((u : Account) → (f u).role ≡ u.role)
      → Keeps t (change admin.id f t)
  unfolding admin_target
  change-Keeps i admin f h k =
      let found = target_of-admin (find (has_user_id i) t.users) admin h in
      guarded-update (has_user_id admin.id) f t.users
        (All-weaken _ _ t.users (λ u same e. rw (same e) found.1)
          (In-unique (has_user_id admin.id) t.users (once admin.id)
            (find-In (has_user_id i) t.users found.0) ((==_iff admin.id admin.id).1 refl)))
        k

  on_target-Keeps :
      {A : Type 0} (i : ℕ) (f : Account → Result A)
      → ((admin : Account) → admin_target i t ≡ returns admin → Keeps t (f admin).1)
      → Keeps t (on_target (admin_target i t) t f).1
  on_target-Keeps i f h = go (admin_target i t) refl
    where
      go : (o : Outcome Account) → admin_target i t ≡ o → Keeps t (on_target o t f).1
      go (raises e) k = refl
      go (returns admin) k = h admin k

  choice-Keeps :
      {A : Type 0} (b : Bool) (x y : Result A)
      → Keeps t x.1
      → Keeps t y.1
      → Keeps t (if b then x else y).1
  choice-Keeps true x y h k = h
  choice-Keeps false x y h k = k

  insert_admin-Keeps :
      (actor : Account) (telegram_id : ℕ) (name : String) (profile_ids : List ℕ) (code : String)
      → Keeps t (insert_admin actor telegram_id name profile_ids code t).1
  unfolding insert_admin replace
  insert_admin-Keeps actor telegram_id name profile_ids code =
      choice-Keeps (any (has_telegram_id telegram_id) t.users) (raises _, t) (returns _, _) refl
        (guarded-admin t.users (new_account t.next_id telegram_id name actor.id code) refl)

  set_telegram_id-Keeps :
      (actor : Account) (i : ℕ) (admin : Account) (telegram_id : ℕ)
      → admin_target i t ≡ returns admin
      → Keeps t (set_telegram_id actor admin telegram_id t).1
  unfolding set_telegram_id
  set_telegram_id-Keeps actor i admin telegram_id h =
      choice-Keeps
        (any (λ u. has_telegram_id telegram_id u && not (has_user_id admin.id u)) t.users)
        (raises _, t) (returns tt, _) refl
        (change-Keeps i admin (λ u. record u { telegram_user_id = telegram_id }) h (λ u. refl))

  assign_to-Keeps :
      (actor admin : Account) (profile_ids : List ℕ)
      → Keeps t (assign_to actor admin profile_ids t).1
  unfolding assign_to audit_access replace
  assign_to-Keeps actor admin profile_ids =
      choice-Keeps (not (length profile_ids == 0) && not admin.enabled) (raises _, t) _ refl
        (choice-Keeps (not (are_profiles profile_ids t)) (raises _, t) (returns tt, _) refl
          (ap guarded (access_events-users _ actor.id _ _ ∙ access_events-users _ actor.id _ _)))

  assign_admins-Keeps :
      (actor : Account) (profile_id : ℕ) (ids : List ℕ)
      → Keeps t (assign_admins actor profile_id ids t).1
  unfolding assign_admins replace_for_profile
  assign_admins-Keeps actor profile_id ids = managed-Keeps actor t _ (
      choice-Keeps
        (not (any (λ (p : ProfileRow). (p.id == profile_id) && is_none p.archived_at) t.profiles))
        (raises _, t) _ refl
        (choice-Keeps
          (not (length ids == 0) && not (count (is_assignable ids) t.users == length ids))
          (raises _, t) (returns tt, _) refl
          (ap guarded (access_events-users _ actor.id _ _ ∙ access_events-users _ actor.id _ _))))

  change_language-Keeps :
      (actor : Account) (code : String) (target : Option ℕ)
      → Keeps t (change_language actor code target t).1
  unfolding change_language set_language
  change_language-Keeps actor code none =
      choice-Keeps (not actor.enabled || is_some actor.deleted_at) (raises _, t) (returns tt, _)
        refl (guarded-language (has_user_id actor.id) code t.users)
  change_language-Keeps actor code (some i) =
      choice-Keeps (not actor.enabled || is_some actor.deleted_at) (raises _, t) _ refl
        (choice-Keeps (i == actor.id) (returns tt, _) _
          (guarded-language (has_user_id actor.id) code t.users)
          (on_target-Keeps i _ (λ admin h.
            managed-Keeps actor t (set_language actor admin.id code t)
              (guarded-language (has_user_id admin.id) code t.users))))

  -- No operation of account management, whoever calls it, changes, disables, deletes, adds or
  -- removes the account of a superadmin, its language left aside, in a table where numbers are unique.
  pub apply-guarded :
      (actor : Account) (c : Call) → guarded (apply actor c t).users ≡ guarded t.users
  unfolding apply create_admin rename change_telegram_id set_enabled delete assign
  apply-guarded actor (creates strip telegram_id name profile_ids code) = managed-Keeps actor t _ (
      choice-Keeps (not (are_profiles profile_ids t)) (raises _, t) _ refl
        (checked-Keeps (validate_telegram_id telegram_id) t _ (λ id.
          checked-Keeps (validate_name strip name) t _
            (λ clean. insert_admin-Keeps actor id (strip clean) profile_ids code))))
  apply-guarded actor (renames strip i name) = managed-Keeps actor t _ (
      on_target-Keeps i _ (λ admin h.
        checked-Keeps (validate_name strip name) t _
          (λ clean. change-Keeps i admin (λ u. record u { display_name = clean }) h (λ u. refl))))
  apply-guarded actor (changes_telegram_id i telegram_id) = managed-Keeps actor t _ (
      on_target-Keeps i _ (λ admin h.
        checked-Keeps (validate_telegram_id telegram_id) t _
          (λ id. set_telegram_id-Keeps actor i admin id h)))
  apply-guarded actor (sets_enabled i on) = managed-Keeps actor t _ (
      on_target-Keeps i _
        (λ admin h. change-Keeps i admin (λ u. record u { enabled = on }) h (λ u. refl)))
  apply-guarded actor (deletes i now) = managed-Keeps actor t _ (
      on_target-Keeps i _ (λ admin h.
        change-Keeps i admin (λ u. record u { enabled = false; deleted_at = some now }) h
          (λ u. refl)))
  apply-guarded actor (assigns i profile_ids) =
      managed-Keeps actor t _
        (on_target-Keeps i _ (λ admin h. assign_to-Keeps actor admin profile_ids))
  apply-guarded actor (assigns_admins profile_id ids) = assign_admins-Keeps actor profile_id ids
  apply-guarded actor (changes_language code target) = change_language-Keeps actor code target

managed-refused :
    {A : Type 0} (actor : Account) (t : Tables) (r : Result A)
    → is_manager actor ≡ false
    → (managed actor t r).1 ≡ t
managed-refused actor t r h = rw h refl

target-refused :
    {A : Type 0} (actor : Account) (t : Tables) (o : Outcome Account) (f : Account → Result A)
    → is_manager actor ≡ false
    → (on_target o t (λ admin. managed actor t (f admin))).1 ≡ t
target-refused actor t (raises e) f h = refl
target-refused actor t (returns admin) f h = managed-refused actor t (f admin) h

same_if :
    {A : Type 0} (t : Tables) (b : Bool) (x y : Result A)
    → (b ≡ true → x.1 ≡ t)
    → y.1 ≡ t
    → (if b then x else y).1 ≡ t
same_if t true x y h k = h refl
same_if t false x y h k = k

-- Whoever is not an enabled superadmin changes nothing, their own language left aside.
pub apply-unmanaged :
    (actor : Account) (c : Call) (t : Tables)
    → is_manager actor ≡ false
    → is_own actor c ≡ false
    → apply actor c t ≡ t
unfolding apply create_admin rename change_telegram_id set_enabled delete assign assign_admins
    change_language
apply-unmanaged actor (creates strip telegram_id name profile_ids code) t h k =
    managed-refused actor t _ h
apply-unmanaged actor (renames strip i name) t h k = managed-refused actor t _ h
apply-unmanaged actor (changes_telegram_id i telegram_id) t h k = managed-refused actor t _ h
apply-unmanaged actor (sets_enabled i on) t h k = managed-refused actor t _ h
apply-unmanaged actor (deletes i now) t h k = managed-refused actor t _ h
apply-unmanaged actor (assigns i profile_ids) t h k = managed-refused actor t _ h
apply-unmanaged actor (assigns_admins profile_id ids) t h k = managed-refused actor t _ h
apply-unmanaged actor (changes_language code none) t h k = ground (arith, k)
apply-unmanaged actor (changes_language code (some i)) t h k =
    same_if t (not actor.enabled || is_some actor.deleted_at) (raises _, t) _ (λ _. refl)
      (same_if t (i == actor.id) (returns tt, _) _ (λ e. absurd (ground (arith, e, k)))
        (target-refused actor t (admin_target i t) (λ admin. set_language actor admin.id code t) h))
