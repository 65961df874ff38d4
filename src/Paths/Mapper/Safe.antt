-- ===== src/Paths/Mapper/Safe.antt =====
-- What `LocalSourcePathMapper` of src/application/profile_config.py lets through.
use backup_telebot.Paths.Mapper.Plain.{
  container_side-IsPlain, contains-move, All-keep, longest-All, path_of-IsPlain,
  configuration-mappings, host_side-IsPlain,
}
use backup_telebot.Store.{path_error, returns}
use backup_telebot.Fallible.{◌>>◌, require, returns-value, require-returns, pure, bind-returns}
use backup_telebot.Paths.Text.Trip.{parse_path-IsClean, parse_path-render}
use backup_telebot.Paths.Text.{
  render, parse_path, is_empty, validate_absolute_path, Text, is_dots, PurePath,
}
use backup_telebot.Paths.Mapper.{
  container_path, is_approved, is_denied, canonical_host_path, move_to_container, move_to_host,
  container_side, host_side, longest, move, contains, container, host, Roots, Mapper, configuration,
  path_of,
}
use backup_telebot.Prelude.{
  ◌≢◌, ◌||◌, All-weaken, [], ◌∷◌, Option, none, some, arith, ltb, length, keep, not, if◌then◌else◌,
  ◌∙◌, sym, some, ◌∷◌, List, arith, not, ap, subst, true, All, false, Bool, any, ◌≡◌, refl,
}

-- A mapping that passes a test is one that passes it.
any-members :
    (q : PurePath × PurePath → Bool) (xs : List (PurePath × PurePath))
    → All (λ m. q m ≡ true → any q xs ≡ true) xs
unfolding any
any-members q [] = tt
any-members q (x ∷ xs) = (
  (λ h. ground (arith, h)),
  All-weaken _ (λ m. q m ≡ true → (q x || any q xs) ≡ true) xs (λ m f h. ground (arith, f h))
      (any-members q xs),
)

longest-any :
    (key : PurePath × PurePath → PurePath) (q r : PurePath × PurePath → Bool)
    (xs : List (PurePath × PurePath)) {m : PurePath × PurePath}
    → longest key (keep q xs) ≡ some m
    → r m ≡ true
    → any r xs ≡ true
longest-any key q r xs h =
    longest-All (λ m. r m ≡ true → any r xs ≡ true) key (keep q xs)
      (All-weaken _ _ (keep q xs) (λ m f. f.0)
        (All-keep (λ m. r m ≡ true → any r xs ≡ true) q xs (any-members r xs)))
      h

longest-some :
    (key : PurePath × PurePath → PurePath) (x : PurePath × PurePath)
    (xs : List (PurePath × PurePath))
    → longest key (x ∷ xs) ≢ none
unfolding longest
longest-some key x xs h = go (longest key xs) h
  where
    go :
        (o : Option (PurePath × PurePath))
        → ◌≡◌ {A = Option (PurePath × PurePath)}
            (elim o [
              | none ↦ some x
              | some y ↦
                  if ltb (length (key x).parts) (length (key y).parts) then some y else some x
            ])
            none
        → ⊥
    go none e = ground (arith, e)
    go (some y) e = ground (arith, e)

longest-none :
    (key : PurePath × PurePath → PurePath) (q : PurePath × PurePath → Bool)
    (xs : List (PurePath × PurePath))
    → longest key (keep q xs) ≡ none
    → any q xs ≡ false
unfolding any keep longest
longest-none key q [] h = refl
longest-none key q (x ∷ xs) h = go (q x) h (longest-none key q xs)
  where
    go :
        (b : Bool)
        → longest key (if b then x ∷ keep q xs else keep q xs) ≡ none
        → (longest key (keep q xs) ≡ none → any q xs ≡ false)
        → (b || any q xs) ≡ false
    go true h ih = absurd (longest-some key x (keep q xs) h)
    go false h ih = ih h

-- Where a path of the host is approved, its translation is confined.
container_side-inside :
    (roots : Roots) (path : PurePath)
    → is_approved roots path ≡ true
    → (any (contains (container_side roots.mappings path)) roots.identity
        || any (λ a. contains (container_side roots.mappings path) (container a)) roots.mappings)
      ≡ true
unfolding container_side
container_side-inside roots path h =
    go (longest host (keep (λ a. contains path (host a)) roots.mappings)) refl
  where
    go :
        (o : Option (PurePath × PurePath))
        → longest host (keep (λ a. contains path (host a)) roots.mappings) ≡ o
        → (any (contains (move_to_container path o)) roots.identity
            || any (λ a. contains (move_to_container path o) (container a)) roots.mappings)
          ≡ true
    go none e = ground (arith, h, longest-none host (λ a. contains path (host a)) roots.mappings e)
    go (some a) e = ground (
      arith,
      longest-any host (λ a. contains path (host a))
          (λ b. contains (move path a.0 a.1) (container b)) roots.mappings e
          (contains-move path a.0 a.1),
    )

-- A path that is accepted, read again as a path, is under no denied root, under an approved root of the
-- host, and has no "..".
pub canonical_host_path-allowed :
    (m : Mapper) (value : Text) {t : Text}
    → canonical_host_path m value ≡ returns t
    → (roots : Roots) × (configuration m ≡ returns roots)
      × (is_denied roots (parse_path t) ≡ false)
      × (is_approved roots (parse_path t) ≡ true)
      × (any is_dots (parse_path t).parts ≡ false)
unfolding canonical_host_path
canonical_host_path-allowed m value h =
    let (path, ep, h1) = bind-returns (path_of m false value) _ h in
    let (roots, er, h2) = bind-returns (configuration m) _ h1 in
    let c = host_side roots.mappings path in
    let denied =
      require-returns (not (is_denied roots c)) (path_error "denied_root")
        (require (is_approved roots c) (path_error "outside_configured_roots") >> pure (render c))
        h2 in
    let approved =
      require-returns (is_approved roots c) (path_error "outside_configured_roots")
        (pure (render c)) denied.1 in
    let plain =
      host_side-IsPlain roots.mappings path (configuration-mappings m er)
        (path_of-IsPlain m false value path ep) in
    let back = sym (parse_path-render c plain.0) ∙ ap parse_path (returns-value approved.1) in
    (
      roots,
      er,
      subst (λ p. is_denied roots p ≡ false) back (ground (arith, denied.0)),
      subst (λ p. is_approved roots p ≡ true) back approved.0,
      subst (λ p. any is_dots p.parts ≡ false) back plain.1,
    )

-- A path translated for the worker, read again as a path, is under no denied root and has no "..", and
-- it is under an identity root or under the container side of a mapping.
pub container_path-confined :
    (m : Mapper) (value : Text) {t : Text}
    → container_path m value ≡ returns t
    → (roots : Roots) × (configuration m ≡ returns roots)
      × (is_denied roots (parse_path t) ≡ false)
      × ((any (contains (parse_path t)) roots.identity
            || any (λ a. contains (parse_path t) (container a)) roots.mappings)
          ≡ true)
      × (any is_dots (parse_path t).parts ≡ false)
unfolding container_path
container_path-confined m value {t} h =
    let (text, et, h1) = bind-returns (canonical_host_path m value) _ h in
    let (roots, er, h2) = bind-returns (configuration m) _ h1 in
    let c = container_side roots.mappings (parse_path text) in
    let denied =
      require-returns (not (is_denied roots c)) (path_error "denied_root") (pure (render c)) h2 in
    let (others, eo, _, approved, dots) = canonical_host_path-allowed m value et in
    let same = returns-value (sym eo ∙ er) in
    let plain =
      container_side-IsPlain roots.mappings (parse_path text) (configuration-mappings m er)
        (parse_path-IsClean text, dots) in
    let back = sym (parse_path-render c plain.0) ∙ ap parse_path (returns-value denied.1) in
    (
      roots,
      er,
      subst (λ p. is_denied roots p ≡ false) back (ground (arith, denied.0)),
      subst
          (λ p.
            (any (contains p) roots.identity || any (λ a. contains p (container a)) roots.mappings)
            ≡ true)
          back
          (container_side-inside roots (parse_path text)
            (subst (λ r. is_approved r (parse_path text) ≡ true) same approved)),
      subst (λ p. any is_dots p.parts ≡ false) back plain.1,
    )

is_empty-keep :
    (q : PurePath × PurePath → Bool) (xs : List (PurePath × PurePath))
    → any q xs ≡ true
    → is_empty (keep q xs) ≡ false
unfolding any keep
is_empty-keep q [] h = ground (arith, h)
is_empty-keep q (x ∷ xs) h = ground (arith, h, is_empty-keep q xs)

host_side_again :
    (ms : List (PurePath × PurePath)) (path : PurePath)
    → host_side ms (host_side ms path) ≡ host_side ms path
unfolding host_side
host_side_again ms path =
    go (is_empty (keep (λ m. contains path (host m)) ms)) refl (longest container inside) refl
  where
    inside : List (PurePath × PurePath)
    inside = keep (λ m. contains path (container m)) ms

    side : Bool → Option (PurePath × PurePath) → PurePath
    side b o = if b then move_to_host path o else path

    go :
        (b : Bool)
        → is_empty (keep (λ m. contains path (host m)) ms) ≡ b
        → (o : Option (PurePath × PurePath)) → longest container inside ≡ o
        → host_side ms (side b o) ≡ side b o
    go false n o e = rw n refl
    go true n none e = rw (n, e) refl
    go true n (some m) e =
        rw
          (is_empty-keep (λ a. contains (move path m.1 m.0) (host a)) ms
            (longest-any container (λ a. contains path (container a))
              (λ a. contains (move path m.1 m.0) (host a)) ms e (contains-move path m.1 m.0)))
          refl

-- The text that comes out is a fixed point: where it passes as an absolute path again, as it stands, it comes
-- out unchanged when it goes in again.
pub canonical_host_path_again :
    (m : Mapper) (value : Text) {t : Text}
    → canonical_host_path m value ≡ returns t
    → validate_absolute_path m.strip t ≡ returns t
    → canonical_host_path m t ≡ returns t
unfolding canonical_host_path path_of
canonical_host_path_again m value {t} h valid =
    let (path, ep, h1) = bind-returns (path_of m false value) _ h in
    let (roots, er, h2) = bind-returns (configuration m) _ h1 in
    let c = host_side roots.mappings path in
    let denied =
      require-returns (not (is_denied roots c)) (path_error "denied_root")
        (require (is_approved roots c) (path_error "outside_configured_roots") >> pure (render c))
        h2 in
    let approved =
      require-returns (is_approved roots c) (path_error "outside_configured_roots")
        (pure (render c)) denied.1 in
    let plain =
      host_side-IsPlain roots.mappings path (configuration-mappings m er)
        (path_of-IsPlain m false value path ep) in
    let back = ap parse_path (sym (returns-value approved.1)) ∙ parse_path-render c plain.0 in
    rw (valid, er, back, host_side_again roots.mappings path, denied.0, approved.0) approved.1
