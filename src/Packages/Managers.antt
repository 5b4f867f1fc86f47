-- ===== src/Packages/Managers.antt =====
-- src/internal/pkgmanager/package.py and the six `PkgManager` objects that it chooses from.
use packamal.Json.{failing}
use packamal.Packages.Registries.{
  get_rubygems_latest, get_pypi_latest, get_crates_latest, get_npm_latest, get_packagist_latest,
  get_maven_latest, get_packagist_archive_url, get_npm_archive_url, get_pypi_archive_url,
  get_packagist_archive_filename, get_npm_archive_filename, get_maven_archive_url,
  get_crates_archive_url, get_rubygems_archive_url, get_maven_archive_filename,
  get_crates_archive_filename,
}
use packamal.Tasks.Outcome.{Outcome, ret, raise}
use packamal.Prelude.{Text, Option, codes, if◌then◌else◌, text_eq, none, some, ◌++◌}
use packamal.Packages.Extract.{
  Archives, extract_packagist_file, extract_archive_file, extract_gem, extract_jar_file,
}
use packamal.Packages.{PkgPlatform, PkgManager, package_of, Pkg, default_archive_filename}

module _ {S D : Type 0} (platform : PkgPlatform S) (env : Archives S D) where
  abbrev pub npm_pkg_manager : PkgManager S
  npm_pkg_manager = record {
    ecosystem = codes "npm";
    latest_version_func = get_npm_latest platform;
    archive_url_func = get_npm_archive_url platform;
    archive_filename_func = λ name version _. ret (get_npm_archive_filename name version);
    extract_archive_func = extract_archive_file env;
    archive_filename = none;
  }

  abbrev pub pypi_pkg_manager : PkgManager S
  pypi_pkg_manager = record {
    ecosystem = codes "pypi";
    latest_version_func = get_pypi_latest platform;
    archive_url_func = get_pypi_archive_url platform;
    archive_filename_func = default_archive_filename platform;
    extract_archive_func = extract_archive_file env;
    archive_filename = none;
  }

  abbrev pub maven_pkg_manager : PkgManager S
  maven_pkg_manager = record {
    ecosystem = codes "maven";
    latest_version_func = get_maven_latest platform;
    archive_url_func = λ name version. ret (some (get_maven_archive_url name version));
    archive_filename_func = λ name version _. ret (get_maven_archive_filename name version);
    extract_archive_func = extract_jar_file env;
    archive_filename = none;
  }

  abbrev pub rubygems_pkg_manager : PkgManager S
  rubygems_pkg_manager = record {
    ecosystem = codes "rubygems";
    latest_version_func = get_rubygems_latest platform;
    archive_url_func = λ name version. ret (some (get_rubygems_archive_url name version));
    archive_filename_func = default_archive_filename platform;
    extract_archive_func = extract_gem env;
    archive_filename = none;
  }

  abbrev pub packagist_pkg_manager : PkgManager S
  packagist_pkg_manager = record {
    ecosystem = codes "packagist";
    latest_version_func = get_packagist_latest platform;
    archive_url_func = get_packagist_archive_url platform;
    archive_filename_func = λ name version _. get_packagist_archive_filename name version;
    extract_archive_func = extract_packagist_file env;
    archive_filename = none;
  }

  abbrev pub crates_pkg_manager : PkgManager S
  crates_pkg_manager = record {
    ecosystem = codes "crates.io";
    latest_version_func = get_crates_latest platform;
    archive_url_func = λ name version. ret (some (get_crates_archive_url name version));
    archive_filename_func = λ name version _. ret (get_crates_archive_filename name version);
    extract_archive_func = extract_archive_file env;
    archive_filename = none;
  }

  unfoldable pub manager_named : Text → Option (PkgManager S)
  manager_named key =
      if text_eq key (codes "npm")
      then some npm_pkg_manager
      else if text_eq key (codes "pypi")
      then some pypi_pkg_manager
      else if text_eq key (codes "maven")
      then some maven_pkg_manager
      else if text_eq key (codes "rubygems")
      then some rubygems_pkg_manager
      else if text_eq key (codes "packagist")
      then some packagist_pkg_manager
      else if text_eq key (codes "crates.io")
      then some crates_pkg_manager
      else none

  unfoldable pub get_pkg_manager : Text → Option (PkgManager S)
  unfolding manager_named
  get_pkg_manager ecosystem = manager_named (platform.lower ecosystem)

  unfoldable pub pkg : Text → Text → Text → Outcome (Pkg S)
  unfolding get_pkg_manager package_of
  pkg name version ecosystem = elim (get_pkg_manager ecosystem) [
    | none ↦ raise (failing (codes "Unsupported ecosystem: " ++ ecosystem))
    | some manager ↦ ret (package_of platform manager name version)
  ]
