-- ===== src/Scanners/Bandit.antt =====
-- services/execution_service.py: `run_bandit4mal`, on the archive that the package manager
-- downloads and extracts, and the calls of LastPyMile and py2src.
pub mod Laws
use packamal.Tasks.Saves.{message_of}
use packamal.Packages.Managers.{pkg}
use packamal.Packages.Extract.{Archives}
use packamal.Json.{Json, failing}
use packamal.Packages.{
  PkgPlatform, download_archive, get_base_filename, PkgManager, extract_archive,
}
use packamal.Tasks.Outcome.{Outcome, Exc, raise}
use packamal.Scanners.{Tools, and_with, ret}
use packamal.Prelude.{
  ℕ, Text, Option, Bool, List, if◌then◌else◌, ◌==◌, codes, ◌++◌, ◌||◌, text_eq, ◌∷◌, truthy, none,
  [], some,
}

-- The report of bandit, or the dictionary with the status "skipped" and a reason.
pub data BanditReport : Type 0 where
  skipped : (reason : Text) → BanditReport
  report : Json → BanditReport

-- `result.returncode not in [0, 1]`
abbrev pub is_expected : ℕ → Bool
is_expected code = (code == 0) || (code == 1)

module _ {S D : Type 0} (tools : Tools S) (platform : PkgPlatform S) (archives : Archives S D) where
  abbrev pub download_directory : Text
  download_directory = tools.join_path tools.tempdir (codes "bandit4mal_downloaded")

  abbrev pub extract_directory : Text → Text
  extract_directory base_filename =
      tools.join_path (tools.join_path tools.tempdir (codes "bandit4mal_extracted")) base_filename

  abbrev pub json_folder : Text
  json_folder = tools.join_path tools.tempdir (codes "bandit4mal_json_results")

  abbrev pub bandit_path : Text
  bandit_path = elim (truthy (tools.which (codes "bandit"))) [
    | none ↦ codes "/usr/local/bin/bandit"
    | some path ↦ path
  ]

  abbrev pub bandit_command : Text → Text → List Text
  bandit_command extracted_dir output_file =
      bandit_path
      ∷ codes "-r"
      ∷ extracted_dir
      ∷ codes "-f"
      ∷ codes "json"
      ∷ codes "-o"
      ∷ output_file
      ∷ []

  -- `Utils.rmtree` of both directories, and the report.
  unfoldable pub clean_up : Text → Json → S → Outcome BanditReport × S
  clean_up extracted found s =
      and_with
        (λ _ s1. and_with (λ _ s2. (ret (report found), s2)) (tools.rmtree download_directory s1))
        (tools.rmtree extracted s)

  abbrev pub bandit_failed : ℕ → Exc
  bandit_failed code =
      failing (codes "Command returned non-zero exit status " ++ tools.decimal code)

  unfoldable pub read_report : Text → Text → ℕ → S → Outcome BanditReport × S
  unfolding clean_up
  read_report extracted output_file code s =
      if is_expected code
      then and_with (clean_up extracted) (tools.read_json output_file s, s)
      else (raise (bandit_failed code), s)

  unfoldable pub scan_extracted : Text → Text → S → Outcome BanditReport × S
  unfolding read_report
  scan_extracted base_filename extracted_dir s =
      let output_file = tools.join_path json_folder (base_filename ++ codes ".json") in
      and_with
        (λ _ s1.
          and_with (read_report (extract_directory base_filename) output_file)
            (tools.run_command (bandit_command extracted_dir output_file) s1))
        (tools.makedirs json_folder s)

  unfoldable pub extract_and_scan : PkgManager S → Text → S → Outcome BanditReport × S
  unfolding scan_extracted get_base_filename extract_archive
  extract_and_scan manager archive_path s = elim (get_base_filename platform manager) [
    | raise e ↦ (raise e, s)
    | ret base_filename ↦
        and_with (scan_extracted base_filename)
          (extract_archive platform manager archive_path (extract_directory base_filename) s)
  ]

  abbrev pub on_download : Outcome Text × PkgManager S × S → Outcome BanditReport × S
  on_download (ret archive_path, manager, s) = extract_and_scan manager archive_path s
  on_download (raise e, manager, s) = (raise e, s)

  unfoldable pub analyze_archive : PkgManager S → Text → Text → S → Outcome BanditReport × S
  unfolding extract_and_scan download_archive
  analyze_archive manager package_name package_version s =
      and_with
        (λ _ s1.
          on_download
            (download_archive platform package_name package_version download_directory manager s1))
        (tools.makedirs download_directory s)

  abbrev pub only_pypi : Text
  only_pypi = codes "Bandit only supports pypi"

  unfoldable pub run_bandit4mal : Text → Text → Text → S → Outcome BanditReport × S
  unfolding analyze_archive pkg
  run_bandit4mal package_name package_version ecosystem s =
      if text_eq (tools.lower ecosystem) (codes "pypi")
      then elim (pkg platform archives package_name package_version ecosystem) [
        | raise e ↦ (raise e, s)
        | ret found ↦ analyze_archive found.manager package_name package_version s
      ]
      else (ret (skipped only_pypi), s)

-- What `run_lastpymile` returns: the analysis, or a dictionary with a reason or an error.
pub data PymileReport (R : Type 0) : Type 0 where
  unsupported : (reason : Text) → PymileReport R
  analyzed : R → PymileReport R
  pymile_error : Text → PymileReport R

-- `app.analyze_package` is a parameter.
unfoldable pub run_lastpymile :
    {R : Type 0}
    → (Text → Text)
    → (Text → Option Text → Text → Outcome R)
    → Text
    → Option Text
    → Text
    → PymileReport R
run_lastpymile lower analyze_package package_name package_version ecosystem =
    if text_eq (lower ecosystem) (codes "pypi") || text_eq (lower ecosystem) (codes "npm")
    then elim (analyze_package package_name package_version ecosystem) [
      | ret r ↦ analyzed r
      | raise e ↦ pymile_error (message_of e)
    ]
    else unsupported (codes "LastPyMile unsupported for " ++ ecosystem)

-- `GetFinalURL(...).get_final_url()` is a parameter.
unfoldable pub run_py2src : (Text → Text → Outcome (List Text)) → Text → Text → List Text
run_py2src get_final_url package_name ecosystem = elim (get_final_url package_name ecosystem) [
  | ret url_data ↦ url_data
  | raise e ↦ []
]
