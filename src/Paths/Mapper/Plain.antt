-- ===== src/Paths/Mapper/Plain.antt =====
-- What a mapped path is made of: the roots of a configuration and the paths moved between them have no ".."
-- and only parts that a path can have (`LocalSourcePathMapper` of src/application/profile_config.py).
use backup_telebot.Store.{raises, path_error, Outcome, returns}
use backup_telebot.Fallible.{
  ◌>>=◌, ◌>>◌, require, traverse-All, returns-value, require-returns, pure, traverse, bind-returns,
}
use backup_telebot.Paths.Text.Trip.{IsPart, validate_absolute_path-reads, IsClean}
use backup_telebot.Paths.Text.{
  text_eq, parse_path, is_empty, validate_absolute_path, Text, is_dots, PurePath,
}
use backup_telebot.Paths.Mapper.{
  move_to_container, move_to_host, container_side, host_side, bool_eq, longest, move, drop_parts,
  contains, is_prefix, container, host, has_repeat, invalid_path, Roots, mapping_of, Mapper,
  configuration, path_of,
}
use backup_telebot.Prelude.{
  All-append, [], ◌∷◌, ◌++◌, Option, none, some, arith, ltb, length, keep, not, if◌then◌else◌, ◌∙◌,
  sym, ◌++◌, some, ◌∷◌, List, arith, ◌&&◌, map, not, ap, subst, true, All, false, Bool, any, ◌≡◌,
  refl,
}

-- A path without "..", with the parts of a path.
abbrev pub IsPlain : PurePath → Type 0
IsPlain p = IsClean p × (any is_dots p.parts ≡ false)

abbrev IsPlainPair : PurePath × PurePath → Type 0
IsPlainPair m = IsPlain m.0 × IsPlain m.1

pub path_of-IsPlain :
    (m : Mapper) (root : Bool) (value : Text) (p : PurePath)
    → path_of m root value ≡ returns p
    → IsPlain p
unfolding path_of
path_of-IsPlain m root value p h = go (validate_absolute_path m.strip value) refl h
  where
    go :
        (o : Outcome Text)
        → validate_absolute_path m.strip value ≡ o
        → (invalid_path o >>= λ clean.
            require
              (not
                (root && (is_empty (parse_path clean).parts && not (parse_path clean).is_double)))
              (path_error "root_not_allowed")
            >> pure (parse_path clean))
          ≡ returns p
        → IsPlain p
    go (raises e) v h = ground (arith, h)
    go (returns t) v h =
        let r =
          require-returns
            (not (root && (is_empty (parse_path t).parts && not (parse_path t).is_double)))
            (path_error "root_not_allowed") (pure (parse_path t)) h in
        let (q, clean, e, back, dots) = validate_absolute_path-reads m.strip value v in
        subst IsPlain (sym back ∙ returns-value r.1) (clean, dots)

mapping_of-IsPlainPair :
    (m : Mapper) (texts : Text × Text) (p : PurePath × PurePath)
    → mapping_of m texts ≡ returns p
    → IsPlainPair p
unfolding mapping_of
mapping_of-IsPlainPair m (a, b) p h =
    let (x, ex, h1) = bind-returns (path_of m true a) _ h in
    let (y, ey, h2) = bind-returns (path_of m true b) (λ c. pure (x, c)) h1 in
    subst IsPlainPair (returns-value h2)
      (path_of-IsPlain m true a x ex, path_of-IsPlain m true b y ey)

-- The host and container paths of a configuration are plain.
pub configuration-mappings :
    (m : Mapper) {roots : Roots} → configuration m ≡ returns roots → All IsPlainPair roots.mappings
unfolding configuration
configuration-mappings m {roots} h =
    let (ids, _, h1) = bind-returns (traverse (path_of m true) m.allowed_identity_roots) _ h in
    let (ds, _, h2) = bind-returns (traverse (path_of m false) m.denied_roots) _ h1 in
    let (ms, e, h3) = bind-returns (traverse (mapping_of m) m.mount_mappings) _ h2 in
    let distinct_hosts =
      require-returns (not (has_repeat (map host ms))) (path_error "invalid_configuration")
        (require (not (has_repeat (map container ms))) (path_error "invalid_configuration")
          >> pure (record { identity = ids; denied = ds; mappings = ms }))
        h3 in
    let distinct_containers =
      require-returns (not (has_repeat (map container ms))) (path_error "invalid_configuration")
        (pure (record { identity = ids; denied = ds; mappings = ms })) distinct_hosts.1 in
    subst (All IsPlainPair) (ap (λ (x : Roots). x.mappings) (returns-value distinct_containers.1))
      (traverse-All IsPlainPair (mapping_of m) (mapping_of-IsPlainPair m) m.mount_mappings e)

-- Where a path ends up that is moved from one root to another.
pub text_eq_self : (t : Text) → text_eq t t ≡ true
text_eq_self [] = refl
text_eq_self (c ∷ t) = ground (arith, text_eq_self t)

is_prefix-append : (rs ps : List Text) → is_prefix rs (rs ++ ps) ≡ true
unfolding is_prefix
is_prefix-append [] ps = refl
is_prefix-append (r ∷ rs) ps = rw (text_eq_self r, is_prefix-append rs ps) refl

pub contains-move : (path base target : PurePath) → contains (move path base target) target ≡ true
unfolding contains
contains-move path base target =
    go target.is_double (is_prefix-append target.parts (drop_parts base.parts path.parts))
  where
    go : (d : Bool) {b : Bool} → b ≡ true → (bool_eq d d && b) ≡ true
    go true h = h
    go false h = h

All-drop_parts : (P : Text → Type 0) (rs ps : List Text) → All P ps → All P (drop_parts rs ps)
unfolding drop_parts
All-drop_parts P [] ps a = a
All-drop_parts P (r ∷ rs) [] a = a
All-drop_parts P (r ∷ rs) (p ∷ ps) a = All-drop_parts P rs ps a.1

any-none : (xs : List Text) → any is_dots xs ≡ false → All (λ p. is_dots p ≡ false) xs
unfolding any
any-none [] h = tt
any-none (x ∷ xs) h = (ground (arith, h), any-none xs (ground (arith, h)))

none-any : (xs : List Text) → All (λ p. is_dots p ≡ false) xs → any is_dots xs ≡ false
unfolding any
none-any [] h = refl
none-any (x ∷ xs) h = rw (h.0) (none-any xs h.1)

move-IsPlain :
    (path base target : PurePath) → IsPlain path → IsPlain target → IsPlain (move path base target)
move-IsPlain path base target (c, d) (ct, dt) = (
  All-append IsPart target.parts rest ct (All-drop_parts IsPart base.parts path.parts c),
  none-any (target.parts ++ rest) (
      All-append (λ p. is_dots p ≡ false) target.parts rest (any-none target.parts dt)
        (All-drop_parts (λ p. is_dots p ≡ false) base.parts path.parts (any-none path.parts d))),
)
  where
    rest : List Text
    rest = drop_parts base.parts path.parts

pub longest-All :
    (P : PurePath × PurePath → Type 0) (key : PurePath × PurePath → PurePath)
    (xs : List (PurePath × PurePath))
    → All P xs
    → {m : PurePath × PurePath} → longest key xs ≡ some m
    → P m
unfolding longest
longest-All P key [] a h = ground (arith, h)
longest-All P key (x ∷ xs) a {m} h =
    go (longest key xs) (λ y e. longest-All P key xs a.1 {m = y} e) refl h
  where
    go :
        (o : Option (PurePath × PurePath))
        → ((y : PurePath × PurePath) → longest key xs ≡ some y → P y)
        → longest key xs ≡ o
        → ◌≡◌ {A = Option (PurePath × PurePath)}
            (elim o [
              | none ↦ some x
              | some y ↦
                  if ltb (length (key x).parts) (length (key y).parts) then some y else some x
            ])
            (some m)
        → P m
    go none ih e h = subst P (cc) a.0
    go (some y) ih e h = pick (ltb (length (key x).parts) (length (key y).parts)) h
      where
        pick :
            (b : Bool)
            → ◌≡◌ {A = Option (PurePath × PurePath)} (if b then some y else some x) (some m)
            → P m
        pick true h = subst P (cc) (ih y e)
        pick false h = subst P (cc) a.0

pub All-keep :
    (P : PurePath × PurePath → Type 0) (q : PurePath × PurePath → Bool)
    (xs : List (PurePath × PurePath))
    → All P xs
    → All (λ m. P m × (q m ≡ true)) (keep q xs)
unfolding keep
All-keep P q [] a = tt
All-keep P q (x ∷ xs) a = go (q x) refl (All-keep P q xs a.1)
  where
    go :
        (b : Bool)
        → q x ≡ b
        → All (λ m. P m × (q m ≡ true)) (keep q xs)
        → All (λ m. P m × (q m ≡ true)) (if b then x ∷ keep q xs else keep q xs)
    go true e r = ((a.0, e), r)
    go false e r = r

-- The mapping chosen is plain and contains the path.
longest-keep :
    (key : PurePath × PurePath → PurePath) (q : PurePath × PurePath → Bool)
    (xs : List (PurePath × PurePath))
    → All IsPlainPair xs
    → {m : PurePath × PurePath} → longest key (keep q xs) ≡ some m
    → IsPlainPair m × (q m ≡ true)
longest-keep key q xs a h =
    longest-All (λ m. IsPlainPair m × (q m ≡ true)) key (keep q xs) (All-keep IsPlainPair q xs a) h

pub host_side-IsPlain :
    (ms : List (PurePath × PurePath)) (path : PurePath)
    → All IsPlainPair ms
    → IsPlain path
    → IsPlain (host_side ms path)
unfolding host_side
host_side-IsPlain ms path a p =
    go (is_empty (keep (λ m. contains path (host m)) ms)) (longest container inside) refl
  where
    inside : List (PurePath × PurePath)
    inside = keep (λ m. contains path (container m)) ms

    go :
        (b : Bool) (o : Option (PurePath × PurePath))
        → longest container inside ≡ o
        → IsPlain (if b then move_to_host path o else path)
    go false o e = p
    go true none e = p
    go true (some m) e = move-IsPlain path m.1 m.0 p (longest-keep container _ ms a e).0.0

pub container_side-IsPlain :
    (ms : List (PurePath × PurePath)) (path : PurePath)
    → All IsPlainPair ms
    → IsPlain path
    → IsPlain (container_side ms path)
unfolding container_side
container_side-IsPlain ms path a p = go (longest host (keep (λ m. contains path (host m)) ms)) refl
  where
    go :
        (o : Option (PurePath × PurePath))
        → longest host (keep (λ m. contains path (host m)) ms) ≡ o
        → IsPlain (move_to_container path o)
    go none e = p
    go (some m) e = move-IsPlain path m.0 m.1 p (longest-keep host _ ms a e).0.1
