-- ===== src/Packages.antt =====
-- src/internal/pkgmanager of backend/package_analysis: `PkgManager`, `Pkg` and the helpers on
-- texts. `os.path`, `urlparse`, `str.lower` and the network are parameters.
pub mod Extract
pub mod Registries
pub mod Managers
pub mod Laws
use packamal.Json.{Json, failing, ◌>>=◌, as_text}
use packamal.Prelude.{
  Text, Option, List, ℕ, codes, suc, ◌∷◌, ◌++◌, strip_prefix, length, [], none, some, zero, Bool,
  truthy, ◌-◌, split, if◌then◌else◌, any_of, is_nonempty, text_eq, ◌&&◌, occurs, ltb,
}
use packamal.Tasks.Outcome.{Outcome, ret, raise, Exc}

-- What the managers call, over a state S of the file system and the network.
pub record PkgPlatform (S : Type 0) : Type 0 where
  pub lower : Text → Text
  -- `os.path.join`
  pub join_path : Text → Text → Text
  pub basename : Text → Text
  -- `os.path.splitext(path)[1]`
  pub extension : Text → Text
  -- `re.sub(r'\d+\.\d+\.\d+$', '', text)`
  pub without_version : Text → Text
  -- `urlparse(url).path`
  pub url_path : Text → Text
  -- `download_to_path(path, url)`: GET and a file written
  pub download_to_path : Text → Text → S → Outcome (Unit {0}) × S
  -- `requests.get(url)`, `raise_for_status()` and `json()`
  pub fetch_json : Text → Outcome Json
  -- `datetime.fromisoformat(text)` as an instant; the registries' times have an offset
  pub fromisoformat : Text → Outcome ℕ
  -- `str` of a value that is no text
  pub repr : Json → Text
  -- `requests.get(url)`, `raise_for_status()` and `findtext` of the path in the XML
  pub fetch_xml : Text → Text → Outcome (Option Text)

-- The function fields of a `PkgManager`; archive_url_func returns None for no URL.
pub record PkgManager (S : Type 0) : Type 0 where
  pub ecosystem : Text
  pub latest_version_func : Text → Outcome Text
  pub archive_url_func : Text → Text → Outcome (Option Text)
  pub archive_filename_func : Text → Text → Text → Outcome Text
  pub extract_archive_func : Text → Text → S → Outcome (Unit {0}) × S
  pub archive_filename : Option Text

pub record Pkg (S : Type 0) : Type 0 where
  pub name : Text
  pub version : Text
  pub manager : PkgManager S

abbrev archive_map : List Text
archive_map =
    codes ".apk"
    ∷ codes ".bz2"
    ∷ codes ".bzip2"
    ∷ codes ".deb"
    ∷ codes ".gem"
    ∷ codes ".gz"
    ∷ codes ".jar"
    ∷ codes ".rpm"
    ∷ codes ".tar"
    ∷ codes ".tar.gz"
    ∷ codes ".tar.xz"
    ∷ codes ".tgz"
    ∷ codes ".upx"
    ∷ codes ".whl"
    ∷ codes ".xz"
    ∷ codes ".zip"
    ∷ []

-- `text.replace(old, new)` for a nonempty `old`: `skip` is the rest of a match to leave out.
abbrev pub replaced : Text → Text → ℕ → Text → Text
replaced old new skip [] = []
replaced old new (suc skip) (c ∷ s) = replaced old new skip s
replaced old new zero (c ∷ s) = elim (strip_prefix old (c ∷ s)) [
  | none ↦ c ∷ replaced old new 0 s
  | some rest ↦ new ++ replaced old new (length old - 1) s
]

-- For an empty `old`, Python puts `new` around every character.
abbrev interleaved : Text → Text → Text
interleaved new [] = new
interleaved new (c ∷ s) = new ++ (c ∷ interleaved new s)

unfoldable pub replace : Text → Text → Text → Text
replace [] new s = interleaved new s
replace (o ∷ old) new s = replaced (o ∷ old) new 0 s

-- `datetime.fromisoformat(value.replace("Z", "+00:00"))`
unfoldable pub instant : (Text → Outcome ℕ) → Json → Outcome ℕ
unfolding replace
instant fromisoformat v =
    as_text v >>= (λ t. fromisoformat (replace (codes "Z") (codes "+00:00") t))

abbrev pub is_archive : Text → Bool
is_archive ext = any_of (text_eq ext) archive_map

module _ {S : Type 0} (platform : PkgPlatform S) where
  -- The last two parts of `base.split('.')`, with the extension in place of the last.
  abbrev pub sub_extension : List Text → Text → Text
  sub_extension [] ext = []
  sub_extension (a ∷ []) ext = []
  sub_extension (a ∷ (b ∷ [])) ext = b'.' ∷ (a ++ ext)
  sub_extension (a ∷ (b ∷ (c ∷ rest))) ext = sub_extension (b ∷ (c ∷ rest)) ext

  -- `get_ext` on the base name without its version.
  unfoldable pub ext_of : Text → Text
  ext_of base =
      let ext = platform.extension base in
      let parts = split b'.' base in
      let sub_ext = sub_extension parts ext in
      if is_nonempty ext
        && (occurs (codes ".") base && (ltb 2 (length parts) && is_archive sub_ext))
      then sub_ext
      else ext

  unfoldable pub get_ext : Text → Text
  unfolding ext_of
  get_ext path = ext_of (platform.without_version (platform.basename path))

  unfoldable pub is_supported_archive : Text → Bool
  unfolding get_ext
  is_supported_archive path = is_archive (get_ext path)

  unfoldable pub get_base_filename : PkgManager S → Outcome Text
  unfolding get_ext replace
  get_base_filename manager = elim manager.archive_filename [
    | none ↦ raise (failing (codes "TypeError"))
    | some basename ↦ ret (replace (get_ext basename) [] basename)
  ]

  unfoldable pub package_of : PkgManager S → Text → Text → Pkg S
  package_of manager name version = record {
    name = platform.lower name;
    version = version;
    manager = manager;
  }

  unfoldable pub latest_pkg : PkgManager S → Text → Outcome (Pkg S)
  latest_pkg manager name = do
    version ← manager.latest_version_func (platform.lower name)
    ret (record { name = platform.lower name; version = version; manager = manager })

  unfoldable pub default_archive_filename : Text → Text → Text → Outcome Text
  default_archive_filename _ _ download_url =
      ret (platform.basename (platform.url_path download_url))

  -- What `download_archive` does once the file's name is known: the manager keeps the name, also
  -- when it is empty.
  unfoldable pub download_named :
      Text → Text → Text → PkgManager S → S → Outcome Text × PkgManager S × S
  download_named directory download_url [] manager s = (
    raise (failing (codes "Base filename for archive is empty")),
    record manager { archive_filename = some [] },
    s,
  )
  download_named directory download_url (c ∷ base_filename) manager s =
      let dest_path = platform.join_path directory (c ∷ base_filename) in
      let (downloaded, s') = platform.download_to_path dest_path download_url s in
      (
        downloaded >>= (λ _. ret dest_path),
        record manager { archive_filename = some (c ∷ base_filename) },
        s',
      )

  unfoldable pub download_from :
      Text → Text → Text → Text → PkgManager S → S → Outcome Text × PkgManager S × S
  unfolding download_named
  download_from name version directory download_url manager s =
      elim (manager.archive_filename_func name version download_url) [
        | raise e ↦ (raise e, manager, s)
        | ret base_filename ↦ download_named directory download_url base_filename manager s
      ]

  abbrev pub url_not_found : Text → Text → Exc
  url_not_found name version =
      failing (codes "Archive URL not found for package " ++ (name ++ (codes " @ " ++ version)))

  -- The manager is shared by all callers, so its new state is a result.
  unfoldable pub download_archive :
      Text → Text → Text → PkgManager S → S → Outcome Text × PkgManager S × S
  unfolding download_from
  download_archive name version directory manager s = elim (manager.archive_url_func name version) [
    | raise e ↦ (raise e, manager, s)
    | ret url ↦ elim (truthy url) [
      | none ↦ (raise (url_not_found name version), manager, s)
      | some download_url ↦ download_from name version directory download_url manager s
    ]
  ]

  -- `extract_archive`: every manager of the program has an `extract_archive_func`.
  unfoldable pub extract_archive : PkgManager S → Text → Text → S → Outcome Text × S
  extract_archive manager archive_path output_dir s =
      let (extracted, s') = manager.extract_archive_func archive_path output_dir s in
      (extracted >>= (λ _. ret output_dir), s')
