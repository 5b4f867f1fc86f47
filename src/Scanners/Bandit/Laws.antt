-- ===== src/Scanners/Bandit/Laws.antt =====
-- The report that `run_bandit4mal` returns is the one that bandit wrote.
use packamal.Packages.{
  PkgManager, PkgPlatform, download_archive, get_base_filename, extract_archive, Pkg,
}
use packamal.Packages.Managers.{pkg}
use packamal.Packages.Extract.{Archives}
use packamal.Scanners.{Tools, and_with}
use packamal.Scanners.Bandit.{
  BanditReport, clean_up, scan_extracted, run_bandit4mal, analyze_archive, extract_and_scan,
  extract_directory, read_report, json_folder, download_directory, report, on_download, is_expected,
  bandit_command,
}
use packamal.Json.{Json}
use packamal.Tasks.Outcome.{Outcome, Outcome-cases, ret, raise}
use packamal.Prelude.{
  Text, ◌≡◌, true, ℕ, sym, if-elim, ap, refl, text_eq, inr, ◌∙◌, inl, codes, Bool-cases, ◌++◌,
  arith, subst, ◌⊎◌, ==_iff, ◌==◌,
}

is_expected_lem : (code : ℕ) → is_expected code ≡ true → (code ≡ 0) ⊎ (code ≡ 1)
is_expected_lem code h = elim (Bool-cases (code == 0)) [
  | inl e ↦ inl ((==_iff code 0).0 e)
  | inr e ↦ inr ((==_iff code 1).0 (ground arith))
]

module _ {S D : Type 0} (tools : Tools S) (platform : PkgPlatform S) (archives : Archives S D) where
  abbrev output_file : Text → Text
  output_file base = tools.join_path (json_folder tools platform archives) (base ++ codes ".json")

  -- Bandit ran on a directory that an archive was extracted to, it ended with 0 or 1, `b` is what
  -- its file then held, and afterwards the directory and that of the download were handed to
  -- `Utils.rmtree`, which left `s'`.
  abbrev pub IsScanned : Json → S → Type 0
  IsScanned b s' =
      (base : Text) × (code : ℕ) × (s0 : S) × (s : S) × (tools.run_command
          (bandit_command tools platform archives (extract_directory tools platform archives base)
            (output_file base))
          s0
        ≡ (ret code, s))
      × ((code ≡ 0) ⊎ (code ≡ 1))
      × (tools.read_json (output_file base) s ≡ ret b)
      × (s'
          ≡ (tools.rmtree (download_directory tools platform archives)
              (tools.rmtree (extract_directory tools platform archives base) s).1).1)

  abbrev IsSound : Outcome BanditReport × S → Type 0
  IsSound r = (b : Json) → r.0 ≡ ret (report b) → IsScanned b r.1

  IsSound-and_with :
      {A : Type 0} (next : A → S → Outcome BanditReport × S) (p : Outcome A × S)
      → ((a : A) (s : S) → p ≡ (ret a, s) → IsSound (next a s))
      → IsSound (and_with next p)
  IsSound-and_with next (ret a, s) sound = sound a s refl
  IsSound-and_with next (raise e, s) sound = λ b h. absurd cc

  clean_up_lem :
      (extracted : Text) (found b : Json) (s : S)
      → (clean_up tools platform archives extracted found s).0 ≡ ret (report b)
      → (found ≡ b)
        × ((clean_up tools platform archives extracted found s).1
            ≡ (tools.rmtree
                (download_directory tools platform archives)
                (tools.rmtree extracted s).1).1)
  unfolding clean_up
  clean_up_lem extracted found b s h = ground arith

  read_report-IsSound :
      (base : Text) (code : ℕ) (s0 s : S)
      → tools.run_command
          (bandit_command tools platform archives
            (extract_directory tools platform archives base)
            (output_file base))
          s0
        ≡ (ret code, s)
      → IsSound (
          read_report tools platform archives
            (extract_directory tools platform archives base)
            (output_file base)
            code
            s)
  unfolding read_report
  read_report-IsSound base code s0 s ran = elim (Bool-cases (is_expected code)) [
    | inr e ↦ rw (e, read_report) (λ b h. absurd cc)
    | inl e ↦
        rw (e, read_report)
          (IsSound-and_with _ (tools.read_json (output_file base) s, s)
            (λ found t p b h.
              let (same, left) = clean_up_lem _ found b t h in
              let fst = λ (q : Outcome Json × S). q.0 in
              let cleaned = λ (q : Outcome Json × S).
                (tools.rmtree (download_directory tools platform archives)
                  (tools.rmtree (extract_directory tools platform archives base) q.1).1).1 in
              (
                base,
                code,
                s0,
                s,
                ran,
                is_expected_lem code e,
                ap fst p ∙ ap ret same,
                left ∙ sym (ap cleaned p),
              )))
  ]

  scan_extracted-IsSound :
      (base : Text) (s : S)
      → IsSound (
          scan_extracted tools platform archives base
            (extract_directory tools platform archives base)
            s)
  unfolding scan_extracted
  scan_extracted-IsSound base s =
      IsSound-and_with _ (tools.makedirs (json_folder tools platform archives) s) (λ _ s1 _.
        IsSound-and_with _ (tools.run_command _ s1)
          (λ code t ran. read_report-IsSound base code s1 t ran))

  -- `extract_archive` returns the directory that it is given.
  extract_archive_lem :
      (manager : PkgManager S) (path output_dir found : Text) (s t : S)
      → extract_archive platform manager path output_dir s ≡ (ret found, t)
      → found ≡ output_dir
  unfolding extract_archive
  extract_archive_lem manager path output_dir found s t h = ground arith

  extract_and_scan-IsSound :
      (manager : PkgManager S) (path : Text) (s : S)
      → IsSound (extract_and_scan tools platform archives manager path s)
  unfolding extract_and_scan
  extract_and_scan-IsSound manager path s =
      elim (Outcome-cases (get_base_filename platform manager)) [
        | inr (e, h) ↦ rw (h, extract_and_scan) (λ b k. absurd cc)
        | inl (base, h) ↦
            rw (h, extract_and_scan)
              (IsSound-and_with (scan_extracted tools platform archives base)
                (extract_archive platform manager path
                  (extract_directory tools platform archives base) s)
                (λ found t p.
                  subst (λ d. IsSound (scan_extracted tools platform archives base d t))
                    (sym (extract_archive_lem manager path _ found s t p))
                    (scan_extracted-IsSound base t)))
      ]

  on_download-IsSound :
      (r : Outcome Text × PkgManager S × S) → IsSound (on_download tools platform archives r)
  on_download-IsSound (ret path, manager, s) = extract_and_scan-IsSound manager path s
  on_download-IsSound (raise e, manager, s) = λ b h. absurd cc

  analyze_archive-IsSound :
      (manager : PkgManager S) (package_name package_version : Text) (s : S)
      → IsSound (analyze_archive tools platform archives manager package_name package_version s)
  unfolding analyze_archive
  analyze_archive-IsSound manager package_name package_version s =
      IsSound-and_with _ (tools.makedirs _ s) (λ _ s1 _. on_download-IsSound (
        download_archive platform package_name package_version
          (download_directory tools platform archives) manager s1))

  pub run_bandit4mal-IsScanned :
      (package_name package_version ecosystem : Text) (s : S) (b : Json)
      → (run_bandit4mal tools platform archives package_name package_version ecosystem s).0
        ≡ ret (report b)
      → IsScanned b
          (run_bandit4mal tools platform archives package_name package_version ecosystem s).1
  unfolding run_bandit4mal
  run_bandit4mal-IsScanned package_name package_version ecosystem s =
      if-elim IsSound (text_eq (tools.lower ecosystem) (codes "pypi"))
        (by_pkg (pkg platform archives package_name package_version ecosystem)) (λ b h. absurd cc)
    where
      by_pkg :
          (found : Outcome (Pkg S))
          → IsSound (elim found [
            | raise e ↦ (raise e, s)
            | ret p ↦
                analyze_archive tools platform archives p.manager package_name package_version s
          ])
      by_pkg (ret p) = analyze_archive-IsSound p.manager package_name package_version s
      by_pkg (raise e) = λ b h. absurd cc
