-- ===== src/Artifacts/Recover/Place.antt =====
-- Where `recover_finalized` of src/pipeline/finalize.py takes a directory to be the run's own.
use backup_telebot.Prelude.{
  ℕ, ◌≡◌, refl, sym, ap, ◌∙◌, arith, Bool, true, false, ◌||◌, List, [], ◌∷◌, ◌++◌, &&_left,
  &&_right,
}
use mathlib.Core.List.{append_assoc}
use backup_telebot.Paths.Text.{Text, text_eq}
use backup_telebot.Paths.Mapper.Plain.{text_eq_self}
use backup_telebot.Artifacts.Files.Names.{text_eq-same}
use backup_telebot.Artifacts.Recover.{
  parent, name, path_eq, ends_with, run_suffix, is_owned, pending_directory_path,
}

-- The path lies two levels below the root, under a name that ends with the run's.
pub record IsOwned (resolve : List Text → List Text) (pending_root path : List Text)
    (run_uuid : Text) : Type 0 where
  pub placed : parent (parent (resolve path)) ≡ resolve pending_root
  pub stamp : Text
  pub named : name (resolve path) ≡ stamp ++ run_suffix run_uuid

path_eq-same : (s t : List Text) → path_eq s t ≡ true → s ≡ t
path_eq-same [] [] h = refl
path_eq-same [] (b ∷ t) h = ground (arith, h)
path_eq-same (a ∷ s) [] h = ground (arith, h)
path_eq-same (a ∷ s) (b ∷ t) h =
    let head = text_eq-same a b (&&_left _ _ h) in
    let tail = path_eq-same s t (&&_right _ _ h) in λ i. head i ∷ tail i

path_eq_self : (s : List Text) → path_eq s s ≡ true
path_eq_self [] = refl
path_eq_self (a ∷ s) = rw (text_eq_self a) (path_eq_self s)

-- A text, or what follows its first character, has the suffix.
with_suffix :
    (b : Bool) (c : ℕ) (s suffix : Text)
    → text_eq (c ∷ s) suffix ≡ b
    → (ends_with s suffix ≡ true → (p : Text) × (s ≡ p ++ suffix))
    → (b || ends_with s suffix) ≡ true
    → (p : Text) × ((c ∷ s) ≡ p ++ suffix)
with_suffix true c s suffix e later h = ([], text_eq-same (c ∷ s) suffix e)
with_suffix false c s suffix e later h = let (p, k) = later h in (c ∷ p, ap (λ t. c ∷ t) k)

ends_with-suffix : (s suffix : Text) → ends_with s suffix ≡ true → (p : Text) × (s ≡ p ++ suffix)
unfolding ends_with
ends_with-suffix [] suffix h = ([], text_eq-same [] suffix h)
ends_with-suffix (c ∷ s) suffix h =
    with_suffix (text_eq (c ∷ s) suffix) c s suffix refl (λ k. ends_with-suffix s suffix k) h

ends_with_self : (s : Text) → ends_with s s ≡ true
unfolding ends_with
ends_with_self [] = refl
ends_with_self (c ∷ s) = rw (text_eq_self (c ∷ s)) refl

ends_with-append : (p suffix : Text) → ends_with (p ++ suffix) suffix ≡ true
unfolding ends_with
ends_with-append [] suffix = ends_with_self suffix
ends_with-append (c ∷ p) suffix = ground (arith, ends_with-append p suffix)

pub is_owned-IsOwned :
    (resolve : List Text → List Text) (pending_root path : List Text) (run_uuid : Text)
    → is_owned resolve pending_root path run_uuid ≡ true
    → IsOwned resolve pending_root path run_uuid
unfolding is_owned
is_owned-IsOwned resolve pending_root path run_uuid h =
    let (stamp, named) =
      ends_with-suffix (name (resolve path)) (run_suffix run_uuid) (&&_right _ _ h) in
    record {
      placed = path_eq-same (parent (parent (resolve path))) (resolve pending_root) (&&_left _ _ h);
      stamp = stamp;
      named = named;
    }

parent-snoc : (root : List Text) (b : Text) → parent (root ++ b ∷ []) ≡ root
unfolding parent
parent-snoc [] b = refl
parent-snoc (c ∷ []) b = refl
parent-snoc (c ∷ d ∷ root) b = ap (λ t. c ∷ t) (parent-snoc (d ∷ root) b)

parent-append : (root : List Text) (a b : Text) → parent (parent (root ++ a ∷ b ∷ [])) ≡ root
parent-append root a b =
    ap parent
      (ap parent (sym (append_assoc root (a ∷ []) (b ∷ []))) ∙ parent-snoc (root ++ a ∷ []) b)
    ∙ parent-snoc root a

name-append : (root : List Text) (a b : Text) → name (root ++ a ∷ b ∷ []) ≡ b
unfolding name
name-append [] a b = refl
name-append (c ∷ []) a b = refl
name-append (c ∷ d ∷ root) a b = name-append (d ∷ root) a b

-- The directory that a run is given is its own, where no link leads elsewhere.
pub pending_directory_path-owned :
    (resolve : List Text → List Text) (pending_root : List Text) (slug stamp run_uuid : Text)
    → resolve (pending_directory_path pending_root slug stamp run_uuid)
      ≡ pending_directory_path (resolve pending_root) slug stamp run_uuid
    → is_owned resolve pending_root
        (pending_directory_path pending_root slug stamp run_uuid)
        run_uuid
      ≡ true
unfolding is_owned
pending_directory_path-owned resolve pending_root slug stamp run_uuid h =
    rw
      (
        h,
        parent-append (resolve pending_root) slug (stamp ++ run_suffix run_uuid),
        name-append (resolve pending_root) slug (stamp ++ run_suffix run_uuid),
        path_eq_self (resolve pending_root),
      )
      (ends_with-append stamp (run_suffix run_uuid))
