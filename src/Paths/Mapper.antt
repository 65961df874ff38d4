-- ===== src/Paths/Mapper.antt =====
-- `LocalSourcePathMapper` of src/application/profile_config.py.
pub mod Plain
pub mod Safe
use backup_telebot.Prelude.{
  ℕ, Bool, true, false, not, ◌&&◌, ◌||◌, Option, none, some, List, [], ◌∷◌, ◌++◌, ltb, ◌==◌,
  if◌then◌else◌, length, any, keep, map,
}
use backup_telebot.Store.{Outcome, returns, raises, Error, path_error}
use backup_telebot.Fallible.{◌>>=◌, ◌>>◌, pure, require, traverse}
use backup_telebot.Paths.Text.{
  Text, text_eq, PurePath, is_empty, parse_path, render, validate_absolute_path,
}

pub record Mapper : Type 0 where
  pub strip : Text → Text
  pub allowed_identity_roots : List Text
  pub denied_roots : List Text
  pub mount_mappings : List (Text × Text)

-- What `_configuration` returns.
pub record Roots : Type 0 where
  pub identity : List PurePath
  pub denied : List PurePath
  pub mappings : List (PurePath × PurePath)  -- host, container

-- `except (TypeError, ValueError)`
abbrev pub invalid_path : Outcome Text → Outcome Text
invalid_path (returns clean) = returns clean
invalid_path (raises e) = raises (path_error "invalid_path")

-- _path
unfoldable pub path_of : Mapper → Bool → Text → Outcome PurePath
path_of m is_configured_root value = do
  clean ← invalid_path (validate_absolute_path m.strip value)
  let path = parse_path clean
  require (not (is_configured_root && (is_empty path.parts && not path.is_double)))
      (path_error "root_not_allowed")
  pure path

abbrev pub bool_eq : Bool → Bool → Bool
bool_eq true b = b
bool_eq false b = not b

-- Whether the second list starts with the first.
unfoldable pub is_prefix : List Text → List Text → Bool
is_prefix [] ps = true
is_prefix (r ∷ rs) [] = false
is_prefix (r ∷ rs) (p ∷ ps) = text_eq r p && is_prefix rs ps

-- _contains: `path == root or root in path.parents`
unfoldable pub contains : PurePath → PurePath → Bool
contains path root = bool_eq root.is_double path.is_double && is_prefix root.parts path.parts

abbrev path_eq : PurePath → PurePath → Bool
path_eq p q = contains p q && contains q p

-- Whether a set of the paths is smaller than the list.
unfoldable pub has_repeat : List PurePath → Bool
has_repeat [] = false
has_repeat (p ∷ ps) = any (path_eq p) ps || has_repeat ps

abbrev pub host : PurePath × PurePath → PurePath
host p = p.0

abbrev pub container : PurePath × PurePath → PurePath
container p = p.1

unfoldable pub mapping_of : Mapper → Text × Text → Outcome (PurePath × PurePath)
mapping_of m (host_text, container_text) = do
  h ← path_of m true host_text
  c ← path_of m true container_text
  pure (h, c)

-- _configuration
unfoldable pub configuration : Mapper → Outcome Roots
unfolding mapping_of
configuration m = do
  identity ← traverse (path_of m true) m.allowed_identity_roots
  denied ← traverse (path_of m false) m.denied_roots
  mappings ← traverse (mapping_of m) m.mount_mappings
  require (not (has_repeat (map host mappings))) (path_error "invalid_configuration")
  require (not (has_repeat (map container mappings))) (path_error "invalid_configuration")
  pure (record { identity = identity; denied = denied; mappings = mappings })

-- `max(items, key=...)`: the first of the greatest.
unfoldable pub longest :
    (PurePath × PurePath → PurePath) → List (PurePath × PurePath) → Option (PurePath × PurePath)
longest key [] = none
longest key (x ∷ xs) = elim (longest key xs) [
  | none ↦ some x
  | some y ↦ if ltb (length (key x).parts) (length (key y).parts) then some y else some x
]

unfoldable pub drop_parts : List Text → List Text → List Text
drop_parts [] ps = ps
drop_parts (r ∷ rs) [] = []
drop_parts (r ∷ rs) (p ∷ ps) = drop_parts rs ps

-- `target.joinpath(path.relative_to(base))`
abbrev pub move : PurePath → PurePath → PurePath → PurePath
move path base target = record target { parts = target.parts ++ drop_parts base.parts path.parts }

abbrev pub move_to_host : PurePath → Option (PurePath × PurePath) → PurePath
move_to_host path none = path
move_to_host path (some m) = move path m.1 m.0

abbrev pub move_to_container : PurePath → Option (PurePath × PurePath) → PurePath
move_to_container path none = path
move_to_container path (some m) = move path m.0 m.1

-- The path of a legacy profile, which may name a container target.
unfoldable pub host_side : List (PurePath × PurePath) → PurePath → PurePath
host_side mappings path =
    if is_empty (keep (λ m. contains path (host m)) mappings)
    then move_to_host path (longest container (keep (λ m. contains path (container m)) mappings))
    else path

abbrev pub is_denied : Roots → PurePath → Bool
is_denied roots path = any (contains path) roots.denied

abbrev pub is_approved : Roots → PurePath → Bool
is_approved roots path =
    any (contains path) roots.identity || any (λ m. contains path (host m)) roots.mappings

-- canonical_host_path
unfoldable pub canonical_host_path : Mapper → Text → Outcome Text
canonical_host_path m value = do
  path ← path_of m false value
  roots ← configuration m
  let canonical = host_side roots.mappings path
  require (not (is_denied roots canonical)) (path_error "denied_root")
  require (is_approved roots canonical) (path_error "outside_configured_roots")
  pure (render canonical)

-- The path in the worker's namespace.
unfoldable pub container_side : List (PurePath × PurePath) → PurePath → PurePath
container_side mappings path =
    move_to_container path (longest host (keep (λ m. contains path (host m)) mappings))

-- container_path
unfoldable pub container_path : Mapper → Text → Outcome Text
container_path m value = do
  host_text ← canonical_host_path m value
  roots ← configuration m
  let translated = container_side roots.mappings (parse_path host_text)
  require (not (is_denied roots translated)) (path_error "denied_root")
  pure (render translated)

-- An identity root that no mapped host root meets.
abbrev pub is_unmapped : Roots → PurePath → Bool
is_unmapped roots root =
    not (any (λ m. contains root (host m) || contains (host m) root) roots.mappings)

-- _container_roots
unfoldable pub container_roots : Roots → List PurePath
container_roots roots = keep (is_unmapped roots) roots.identity ++ map container roots.mappings

-- validate_container_path
unfoldable pub validate_container_path : Mapper → Text → Outcome Text
validate_container_path m value = do
  path ← path_of m false value
  roots ← configuration m
  require (not (is_denied roots path)) (path_error "denied_root")
  require (any (contains path) (container_roots roots)) (path_error "container_escape")
  pure (render path)

-- `dict.fromkeys`: without repeats, the first of each kept.
unfoldable pub distinct : List Text → List Text
distinct [] = []
distinct (t ∷ ts) = t ∷ keep (λ u. not (text_eq u t)) (distinct ts)

-- approved_container_roots
unfoldable pub approved_container_roots : Mapper → Outcome (List Text)
approved_container_roots m = do
  roots ← configuration m
  pure (distinct (map render (keep (λ root. not (is_denied roots root)) (container_roots roots))))
