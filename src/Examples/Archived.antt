-- ===== src/Examples/Archived.antt =====
-- A run of bandit on an archive.
use packamal.Examples.Forms.{tools, sarif}
use packamal.Json.{Json, object, field, str, array, item, no_fields, no_items}
use packamal.Packages.{
  PkgPlatform, package_of, download_archive, download_from, default_archive_filename,
  download_named, get_base_filename, get_ext, ext_of, replace, extract_archive,
}
use packamal.Packages.Managers.{pkg, get_pkg_manager, manager_named}
use packamal.Packages.Registries.{get_pypi_archive_url, first_sdist}
use packamal.Packages.Extract.{
  Archives, extract_archive_file, extract_tar, extract_opened, extract_members,
}
use packamal.Scanners.Bandit.{
  run_bandit4mal, report, analyze_archive, extract_and_scan, scan_extracted, read_report, clean_up,
}
use packamal.Scanners.Bandit.Laws.{IsScanned, run_bandit4mal-IsScanned}
use packamal.Tasks.Outcome.{ret}
use packamal.Prelude.{Text, codes, none, List, [], ◌∷◌, ◌++◌, ◌≡◌, refl, true}

abbrev sdist : Json
sdist = object (
    field (codes "urls")
      (array (
        item
          (object (
            field (codes "packagetype") (str (codes "sdist"))
              (field (codes "url") (str (codes "x")) no_fields)))
          no_items))
      no_fields)

abbrev platform : PkgPlatform (List Text)
platform = record {
  lower = λ t. t;
  join_path = λ a b. a ++ (b'/' ∷ b);
  basename = λ path. path;
  extension = λ path. [];
  without_version = λ text. text;
  url_path = λ url. url;
  download_to_path = λ path url s. (ret tt, path ∷ s);
  fetch_json = λ url. ret sdist;
  fromisoformat = λ text. ret 0;
  repr = λ v. [];
  fetch_xml = λ url path. ret none;
}

abbrev archives : Archives (List Text) Text
archives = record {
  join_path = λ a b. a ++ (b'/' ∷ b);
  dirname = λ path. path;
  ends_with = λ suffix path. true;
  exists = λ path s. true;
  makedirs = λ path s. (ret tt, path ∷ s);
  write_file = λ path content s. (ret tt, path ∷ s);
  open_gzip = λ path s. ret path;
  open_tar = λ stream. ret [];
  extract_tar_file = λ path directory s. (ret tt, s);
  extract_tar_gz_file = λ path directory s. (ret tt, s);
  extract_zip_file = λ path directory s. (ret tt, s);
  rmtree = λ path s. (ret tt, s);
}

reported :
    (run_bandit4mal tools platform archives (codes "a") (codes "1") (codes "pypi") []).0
    ≡ ret (report sarif)
unfolding run_bandit4mal pkg get_pkg_manager manager_named package_of analyze_archive
    download_archive get_pypi_archive_url first_sdist download_from default_archive_filename
    download_named extract_and_scan get_base_filename get_ext ext_of replace extract_archive
    extract_archive_file extract_tar extract_opened extract_members scan_extracted read_report
    clean_up
reported = refl

run_bandit4mal-IsScanned_example :
    IsScanned tools platform archives sarif
      (run_bandit4mal tools platform archives (codes "a") (codes "1") (codes "pypi") []).1
run_bandit4mal-IsScanned_example =
    run_bandit4mal-IsScanned tools platform archives (codes "a") (codes "1") (codes "pypi") [] sarif
      reported
