-- ===== src/Purl.antt =====
-- backend/package_analysis/utils.py: `PURLParser`, `validate_purl_format`,
-- `get_ecosystem_from_purl`. `unquote` of urllib.parse is a parameter, of which nothing is
-- assumed.
pub mod Trip
pub mod Print
pub mod Extract
use packamal.Prelude.{
  ℕ, Option, Text, Bool, split_once, false, codes, strip_prefix, List, none, if◌then◌else◌, split,
  true, [], some, text_eq, ◌&&◌, ◌∷◌, is_nonempty, ◌++◌,
}

pub data Ecosystem : Type 0 where
  pypi npm rubygems maven packagist : Ecosystem

-- The `ValueError`s of `parse_purl`.
pub data PurlError : Type 0 where
  no_pkg_prefix missing_ecosystem_separator : PurlError
  unsupported_ecosystem : Text → PurlError

pub data Parsed {ℓ} (A : Type ℓ) : Type ℓ where
  ok : A → Parsed A
  value_error : PurlError → Parsed A

-- The dictionary that `parse_purl` returns.
pub record Purl : Type 0 where
  pub ecosystem : Ecosystem
  pub namespace : Option Text
  pub name : Option Text
  pub version : Option Text
  pub qualifiers : List (Text × Text)
  pub original_purl : Text

-- `SUPPORTED_ECOSYSTEMS.get(key)`
unfoldable pub supported : Text → Option Ecosystem
supported key =
    if text_eq key (codes "pypi")
    then some pypi
    else if text_eq key (codes "npm")
    then some npm
    else if text_eq key (codes "gem")
    then some rubygems
    else if text_eq key (codes "maven")
    then some maven
    else if text_eq key (codes "packagist")
    then some packagist
    else none

-- `d[key] = value`
unfoldable pub dict_set : Text → Text → List (Text × Text) → List (Text × Text)
dict_set k v [] = (k, v) ∷ []
dict_set k v ((j, w) ∷ d) = if text_eq j k then (k, v) ∷ d else (j, w) ∷ dict_set k v d

-- `x or y` and `if x` on an optional text.
abbrev pub nonempty : Option Text → Bool
nonempty none = false
nonempty (some s) = is_nonempty s

-- `x or ''`
abbrev pub get_or_empty : Option Text → Text
get_or_empty none = []
get_or_empty (some s) = s

-- An optional text inside an f-string.
abbrev pub none_as_text : Option Text → Text
none_as_text none = codes "None"
none_as_text (some s) = s

abbrev pub is_maven : Ecosystem → Bool
is_maven maven = true
is_maven _ = false

abbrev pub is_npm : Ecosystem → Bool
is_npm npm = true
is_npm _ = false

-- `f"{namespace}:{name}"` if both are given, else `name or namespace`.
unfoldable pub maven_name : Option Text → Text → Option Text
maven_name (some (c ∷ n)) (d ∷ m) = some ((c ∷ n) ++ (b':' ∷ (d ∷ m)))
maven_name namespace (d ∷ m) = some (d ∷ m)
maven_name namespace [] = namespace

-- `extract_package_info`: the package's name, its version and its ecosystem.
unfoldable pub info_of : Purl → Text × Text × Ecosystem
info_of p =
    let name = get_or_empty p.name in
    (
      if nonempty p.namespace && is_npm p.ecosystem
          then get_or_empty p.namespace ++ (b'/' ∷ none_as_text p.name)
          else name,
      get_or_empty p.version,
      p.ecosystem,
    )

module _ (unquote : Text → Text) where
  -- The loop of `_parse_qualifiers` over the pairs.
  unfoldable pub add_pairs : List Text → List (Text × Text) → List (Text × Text)
  unfolding dict_set split_once
  add_pairs [] d = d
  add_pairs (pair ∷ pairs) d = add_pairs pairs (elim (split_once b'=' pair) [
    | none ↦ d
    | some (key, value) ↦ dict_set (unquote key) (unquote value) d
  ])

  unfoldable pub parse_qualifiers : Text → List (Text × Text)
  unfolding add_pairs split
  parse_qualifiers [] = []
  parse_qualifiers (c ∷ s) = add_pairs (split b'&' (c ∷ s)) []

  -- `rest.split('?', 1)`: what is left, and the qualifiers.
  unfoldable pub take_qualifiers : Text → Text × List (Text × Text)
  unfolding parse_qualifiers
  take_qualifiers rest = elim (split_once b'?' rest) [
    | none ↦ (rest, [])
    | some (left, qualifiers) ↦ (left, parse_qualifiers qualifiers)
  ]

  -- `rest.split('@', 1)`: the name part, and the version.
  unfoldable pub take_version : Text → Text × Option Text
  unfolding split_once
  take_version rest = elim (split_once b'@' rest) [
    | none ↦ (rest, none)
    | some (name_part, version) ↦ (name_part, some (unquote version))
  ]

  -- `name_part.split('/', 1)`: the namespace, and the name.
  unfoldable pub take_namespace : Text → Option Text × Text
  unfolding split_once
  take_namespace name_part = elim (split_once b'/' name_part) [
    | none ↦ (none, unquote name_part)
    | some (namespace, name) ↦ (some (unquote namespace), unquote name)
  ]

  -- The dictionary from its parts, with the special case of Maven.
  unfoldable pub build :
      Text → Ecosystem → List (Text × Text) → Option Text → Option Text → Text → Purl
  unfolding maven_name
  build purl ecosystem qualifiers version namespace name = record {
    ecosystem = ecosystem;
    namespace = if is_maven ecosystem then none else namespace;
    name = if is_maven ecosystem then maven_name namespace name else some name;
    version = version;
    qualifiers = qualifiers;
    original_purl = purl;
  }

  unfoldable pub parse_rest : Text → Ecosystem → Text → Purl
  unfolding take_qualifiers take_version take_namespace build
  parse_rest purl ecosystem rest =
      let (rest', qualifiers) = take_qualifiers rest in
      let (name_part, version) = take_version rest' in
      let (namespace, name) = take_namespace name_part in
      build purl ecosystem qualifiers version namespace name

  unfoldable pub parse_parts : Text → Text → Text → Parsed Purl
  unfolding parse_rest supported
  parse_parts purl ecosystem_part rest = elim (supported ecosystem_part) [
    | none ↦ value_error (unsupported_ecosystem ecosystem_part)
    | some ecosystem ↦ ok (parse_rest purl ecosystem rest)
  ]

  unfoldable pub parse_purl : Text → Parsed Purl
  unfolding parse_parts split_once
  parse_purl purl = elim (strip_prefix (codes "pkg:") purl) [
    | none ↦ value_error no_pkg_prefix
    | some purl_part ↦ elim (split_once b'/' purl_part) [
      | none ↦ value_error missing_ecosystem_separator
      | some (ecosystem_part, rest) ↦ parse_parts purl ecosystem_part rest
    ]
  ]

  unfoldable pub extract_package_info : Text → Parsed (Text × Text × Ecosystem)
  unfolding parse_purl info_of
  extract_package_info purl = elim (parse_purl purl) [
    | ok p ↦ ok (info_of p)
    | value_error e ↦ value_error e
  ]

  unfoldable pub validate_purl_format : Text → Bool
  unfolding parse_purl
  validate_purl_format purl = elim (parse_purl purl) [ ok _ ↦ true | value_error _ ↦ false ]

-- `purl[4:].split('/')[0]`: all of the text if it has no slash.
unfoldable pub get_ecosystem_from_purl : Text → Option Ecosystem
unfolding supported split_once
get_ecosystem_from_purl purl = elim (strip_prefix (codes "pkg:") purl) [
  | none ↦ none
  | some purl_part ↦ elim (split_once b'/' purl_part) [
    | none ↦ supported purl_part
    | some (ecosystem_part, rest) ↦ supported ecosystem_part
  ]
]
