-- ===== src/Tests/Paths.antt =====
-- A mapping of local source paths (src/application/profile_config.py).
use backup_telebot.Fallible.{traverse}
use backup_telebot.Prelude.{keep, ◌≡◌, refl, true, false, [], ◌∷◌, any, ◌||◌}
use backup_telebot.Store.{returns}
use backup_telebot.Paths.Text.{
  render_parts, render, split, Text, parse_path, validate_absolute_path, is_dots,
}
use backup_telebot.Paths.Mapper.{
  mapping_of, container_side, drop_parts, longest, is_prefix, host_side, has_repeat, path_of,
  Mapper, Roots, configuration, canonical_host_path, container_path, contains, container, is_denied,
  is_approved,
}
use backup_telebot.Paths.Mapper.Safe.{
  canonical_host_path-allowed, container_path-confined, canonical_host_path_again,
}

abbrev host_file : Text
host_file = b'/' ∷ b'h' ∷ b'/' ∷ b'x' ∷ []

abbrev container_file : Text
container_file = b'/' ∷ b'c' ∷ b'/' ∷ b'x' ∷ []

-- The host's /h is mounted at /c; /s is open, /s/k is not.
abbrev mapper : Mapper
mapper = record {
  strip = λ t. t;
  allowed_identity_roots = (b'/' ∷ b's' ∷ []) ∷ [];
  denied_roots = (b'/' ∷ b's' ∷ b'/' ∷ b'k' ∷ []) ∷ [];
  mount_mappings = (b'/' ∷ b'h' ∷ [], b'/' ∷ b'c' ∷ []) ∷ [];
}

-- A path in the worker's namespace is read back as the host's.
legacy_accepted : canonical_host_path mapper container_file ≡ returns host_file
unfolding canonical_host_path path_of validate_absolute_path any parse_path keep split configuration
    traverse render render_parts has_repeat contains host_side is_prefix longest drop_parts
legacy_accepted = refl

host_translated : container_path mapper host_file ≡ returns container_file
unfolding container_path container_side canonical_host_path path_of validate_absolute_path any
    parse_path keep split configuration traverse render render_parts has_repeat contains host_side
    is_prefix longest drop_parts mapping_of
host_translated = refl

host_valid : validate_absolute_path mapper.strip host_file ≡ returns host_file
unfolding validate_absolute_path any parse_path keep split render render_parts
host_valid = refl

canonical_host_path-allowed_example :
    (roots : Roots) × (configuration mapper ≡ returns roots)
    × (is_denied roots (parse_path host_file) ≡ false)
    × (is_approved roots (parse_path host_file) ≡ true)
    × (any is_dots (parse_path host_file).parts ≡ false)
canonical_host_path-allowed_example =
    canonical_host_path-allowed mapper container_file {t = host_file} legacy_accepted

container_path-confined_example :
    (roots : Roots) × (configuration mapper ≡ returns roots)
    × (is_denied roots (parse_path container_file) ≡ false)
    × ((any (contains (parse_path container_file)) roots.identity
          || any (λ a. contains (parse_path container_file) (container a)) roots.mappings)
        ≡ true)
    × (any is_dots (parse_path container_file).parts ≡ false)
container_path-confined_example =
    container_path-confined mapper host_file {t = container_file} host_translated

canonical_host_path_again_example : canonical_host_path mapper host_file ≡ returns host_file
canonical_host_path_again_example =
    canonical_host_path_again mapper container_file {t = host_file} legacy_accepted host_valid
