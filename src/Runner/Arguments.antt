-- ===== src/Runner/Arguments.antt =====
-- The command lines of `AnalysisRunner`: `_build_docker_mounts` and `_build_analysis_args`.
use packamal.Prelude.{Text, List, Option, codes, ◌∷◌, ◌++◌, [], some, if◌then◌else◌}
use packamal.Runner.{Host, AnalysisRunner, Analysis, extend_if, cleaned}

-- `"-v", f"{volume}:{target}"`
abbrev pub mount : Text → Text → List Text
mount volume target = codes "-v" ∷ (volume ++ (codes ":" ++ target)) ∷ []

abbrev pub flag : Text → Text → List Text
flag option value = option ∷ value ∷ []

module _ {S : Type 0} (host : Host S) where
  -- f"/{Path(local_path).resolve().name}"
  abbrev pub mounted_pkg_path : Text → Text
  mounted_pkg_path local_path = codes "/" ++ host.name (host.resolve local_path)

  -- f"/{Path(local_path).name}"
  abbrev pub mounted_path : Text → Text
  mounted_path local_path = codes "/" ++ host.name local_path

  unfoldable pub build_docker_mounts : AnalysisRunner → Option Text → List Text
  build_docker_mounts runner local_package_path =
      mount runner.container_volume (codes "/var/lib/containers")
      ++ (mount runner.results_volume (codes "/results")
          ++ (mount runner.static_results_volume (codes "/staticResults")
              ++ (mount runner.file_write_results_volume (codes "/writeResults")
                  ++ (mount runner.logs_volume (codes "/tmp")
                      ++ (mount runner.analyzed_packages_volume (codes "/analyzedPackages")
                          ++ (mount runner.strace_logs_volume (codes "/straceLogs")
                              ++ extend_if local_package_path
                                  (λ p. mount (host.resolve p) (mounted_pkg_path p))))))))

  abbrev pub buckets : List Text
  buckets =
      flag (codes "-dynamic-bucket") (codes "file:///results/")
      ++ (flag (codes "-file-writes-bucket") (codes "file:///writeResults/")
          ++ (flag (codes "-static-bucket") (codes "file:///staticResults/")
              ++ (flag (codes "-analyzed-pkg-bucket") (codes "file:///analyzedPackages/")
                  ++ flag (codes "-execution-log-bucket") (codes "file:///results"))))

  -- `additional_args` is left out by its only caller, `run_analysis`.
  unfoldable pub build_analysis_args : Analysis → List Text
  build_analysis_args a =
      codes "analyze"
      ∷ (buckets
          ++ (extend_if (cleaned host.strip a.ecosystem) (flag (codes "-ecosystem"))
              ++ (extend_if (cleaned host.strip a.package_name) (flag (codes "-package"))
                  ++ (extend_if (cleaned host.strip a.version) (flag (codes "-version"))
                      ++ (extend_if (some a.mode) (flag (codes "-mode"))
                          ++ (extend_if a.local_path (λ p. flag (codes "-local") (mounted_path p))
                              ++ (if a.no_pull then codes "-nopull" ∷ [] else [])))))))
