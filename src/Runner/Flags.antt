-- ===== src/Runner/Flags.antt =====
-- The arguments of the analysis, read back the way Go's flag package reads them: an option takes the
-- argument that follows it, and `-nopull` takes none. Other options that take no argument are left
-- out.
use packamal.Prelude.{
  none, Option, List, Text, codes, truthy, Bool, false, text_eq, if◌then◌else◌, ◌∷◌, some, true, [],
  ◌≡◌, ◌++◌, ap, refl, ◌∙◌, any_of, Bool-cases, inl, inr,
}
use packamal.Runner.{Host, Analysis, extend_if, cleaned}
use packamal.Runner.Arguments.{flag, mounted_path, build_analysis_args}

pub record Flags : Type 0 where
  pub ecosystem : Option Text
  pub package_name : Option Text
  pub version : Option Text
  pub mode : Option Text
  pub local : Option Text
  pub nopull : Bool
  pub bucket_flags : List (Text × Text)

abbrev pub no_flags : Flags
no_flags = record {
  ecosystem = none;
  package_name = none;
  version = none;
  mode = none;
  local = none;
  nopull = false;
  bucket_flags = [];
}

-- `SupportedEcosystems` of pkgecosystem; the value of `-ecosystem` is one of them or empty.
abbrev pub is_supported : Text → Bool
is_supported e = any_of (text_eq e) (
    []
    ∷ codes "crates.io"
    ∷ codes "npm"
    ∷ codes "packagist"
    ∷ codes "pypi"
    ∷ codes "rubygems"
    ∷ codes "maven"
    ∷ codes "wolfi"
    ∷ [])

-- The other options of `analyze` that take a text.
abbrev pub is_known : Text → Bool
is_known option = any_of (text_eq option) (
    codes "-image-tag"
    ∷ codes "-dynamic-bucket"
    ∷ codes "-static-bucket"
    ∷ codes "-execution-log-bucket"
    ∷ codes "-file-writes-bucket"
    ∷ codes "-analyzed-pkg-bucket"
    ∷ codes "-sandbox-image"
    ∷ codes "-analysis-command"
    ∷ codes "-features"
    ∷ codes "-task-id"
    ∷ codes "-internal-api-token"
    ∷ codes "-api-url"
    ∷ [])

-- `flag.TextVar` refuses an ecosystem that is not supported, and an option must be declared.
abbrev pub set_flag : Text → Text → Flags → Option Flags
set_flag option value f =
    if text_eq option (codes "-ecosystem")
    then if is_supported value then some (record f { ecosystem = some value }) else none
    else if text_eq option (codes "-package")
    then some (record f { package_name = some value })
    else if text_eq option (codes "-version")
    then some (record f { version = some value })
    else if text_eq option (codes "-mode")
    then some (record f { mode = some value })
    else if text_eq option (codes "-local")
    then some (record f { local = some value })
    else if is_known option
    then some (record f { bucket_flags = (option, value) ∷ f.bucket_flags })
    else none

-- `none` if an option is refused or the last one lacks its value.
unfoldable pub read_flags : List Text → Flags → Option Flags
read_flags [] f = some f
read_flags (option ∷ []) f =
    if text_eq option (codes "-nopull") then some (record f { nopull = true }) else none
read_flags (option ∷ (value ∷ rest)) f =
    let without = read_flags (value ∷ rest) (record f { nopull = true }) in
    let with_value : Option Flags = elim (set_flag option value f) [
      | none ↦ none
      | some g ↦ read_flags rest g
    ] in
    if text_eq option (codes "-nopull") then without else with_value

-- What is read, if the ecosystem is supported.
abbrev pub if_supported : Option Text → Option Flags → Option Flags
if_supported none f = f
if_supported (some e) f = if is_supported e then f else none

abbrev pub flags :
    Option Text
    → Option Text
    → Option Text
    → Option Text
    → Option Text
    → Bool
    → List (Text × Text)
    → Flags
flags e p v m l n b = record {
  ecosystem = e;
  package_name = p;
  version = v;
  mode = m;
  local = l;
  nopull = n;
  bucket_flags = b;
}

-- What the command line is meant to say.
abbrev pub meant : {S : Type 0} → Host S → Analysis → Flags
meant host a =
    flags (cleaned host.strip a.ecosystem) (cleaned host.strip a.package_name)
      (cleaned host.strip a.version) (truthy (some a.mode))
      (elim (truthy a.local_path) [ none ↦ none | some p ↦ some (mounted_path host p) ]) a.no_pull
      ((codes "-execution-log-bucket", codes "file:///results")
        ∷ (codes "-analyzed-pkg-bucket", codes "file:///analyzedPackages/")
        ∷ (codes "-static-bucket", codes "file:///staticResults/")
        ∷ (codes "-file-writes-bucket", codes "file:///writeResults/")
        ∷ (codes "-dynamic-bucket", codes "file:///results/")
        ∷ [])

read_nopull :
    (x : Bool) (e p v m l : Option Text) (b : List (Text × Text))
    → read_flags (if x then codes "-nopull" ∷ [] else []) (flags e p v m l false b)
      ≡ some (flags e p v m l x b)
unfolding read_flags
read_nopull true e p v m l b = refl
read_nopull false e p v m l b = refl

read_ecosystem :
    (x p v m l : Option Text) (n : Bool) (b : List (Text × Text)) (rest : List Text)
    → read_flags (extend_if x (flag (codes "-ecosystem")) ++ rest) (flags none p v m l n b)
      ≡ if_supported (truthy x) (read_flags rest (flags (truthy x) p v m l n b))
unfolding read_flags
read_ecosystem none p v m l n b rest = refl
read_ecosystem (some []) p v m l n b rest = refl
read_ecosystem (some (c ∷ s)) p v m l n b rest = elim (Bool-cases (is_supported (c ∷ s))) [
  | inl e ↦ rw (e, read_flags) refl
  | inr e ↦ rw (e, read_flags) refl
]

read_package_name :
    (x e v m l : Option Text) (n : Bool) (b : List (Text × Text)) (rest : List Text)
    → read_flags (extend_if x (flag (codes "-package")) ++ rest) (flags e none v m l n b)
      ≡ read_flags rest (flags e (truthy x) v m l n b)
unfolding read_flags
read_package_name none e v m l n b rest = refl
read_package_name (some []) e v m l n b rest = refl
read_package_name (some (c ∷ s)) e v m l n b rest = refl

read_version :
    (x e p m l : Option Text) (n : Bool) (b : List (Text × Text)) (rest : List Text)
    → read_flags (extend_if x (flag (codes "-version")) ++ rest) (flags e p none m l n b)
      ≡ read_flags rest (flags e p (truthy x) m l n b)
unfolding read_flags
read_version none e p m l n b rest = refl
read_version (some []) e p m l n b rest = refl
read_version (some (c ∷ s)) e p m l n b rest = refl

read_mode :
    (x e p v l : Option Text) (n : Bool) (b : List (Text × Text)) (rest : List Text)
    → read_flags (extend_if x (flag (codes "-mode")) ++ rest) (flags e p v none l n b)
      ≡ read_flags rest (flags e p v (truthy x) l n b)
unfolding read_flags
read_mode none e p v l n b rest = refl
read_mode (some []) e p v l n b rest = refl
read_mode (some (c ∷ s)) e p v l n b rest = refl

read_local :
    (path : Text → Text) (x e p v m : Option Text) (n : Bool) (b : List (Text × Text))
    (rest : List Text)
    → read_flags
        (extend_if x (λ t. flag (codes "-local") (path t)) ++ rest)
        (flags e p v m none n b)
      ≡ read_flags rest
          (flags e p v m (elim (truthy x) [ none ↦ none | some t ↦ some (path t) ]) n b)
unfolding read_flags
read_local path none e p v m n b rest = refl
read_local path (some []) e p v m n b rest = refl
read_local path (some (c ∷ s)) e p v m n b rest = refl

truthy-cleaned :
    (strip : Text → Text) (v : Option Text) → truthy (cleaned strip v) ≡ cleaned strip v
truthy-cleaned strip none = refl
truthy-cleaned strip (some []) = refl
truthy-cleaned strip (some (c ∷ s)) = twice (strip (c ∷ s))
  where
    twice : (t : Text) → truthy (truthy (some t)) ≡ truthy (some t)
    twice [] = refl
    twice (d ∷ t) = refl

-- The command `analyze` with its options.
unfoldable pub read_command : List Text → Option Flags
unfolding read_flags
read_command [] = none
read_command (command ∷ options) =
    if text_eq command (codes "analyze") then read_flags options no_flags else none

module _ {S : Type 0} (host : Host S) (a : Analysis) where
  pub read_command-build_analysis_args :
      read_command (build_analysis_args host a)
      ≡ if_supported (cleaned host.strip a.ecosystem) (some (meant host a))
  unfolding build_analysis_args read_flags read_command
  read_command-build_analysis_args =
      let eco = cleaned host.strip a.ecosystem in
      let pkg = cleaned host.strip a.package_name in
      let ver = cleaned host.strip a.version in
      let b = (meant host a).bucket_flags in
      let md = (meant host a).mode in
      let loc = (meant host a).local in
      read_ecosystem eco none none none none false b _
      ∙ (ap (if_supported (truthy eco)) (
            read_package_name pkg (truthy eco) none none none false b _
            ∙ (read_version ver (truthy eco) (truthy pkg) none none false b _
                ∙ (read_mode (some a.mode) (truthy eco) (truthy pkg) (truthy ver) none false b _
                    ∙ (read_local (mounted_path host) a.local_path (truthy eco) (truthy pkg)
                          (truthy ver) (truthy (some a.mode)) false b _
                        ∙ read_nopull a.no_pull (truthy eco) (truthy pkg) (truthy ver)
                            (truthy (some a.mode)) _ b))))
          ∙ λ i. if_supported (truthy-cleaned host.strip a.ecosystem i) (
              some (
                flags (truthy-cleaned host.strip a.ecosystem i)
                  (truthy-cleaned host.strip a.package_name i)
                  (truthy-cleaned host.strip a.version i) md loc a.no_pull b)))
