-- ===== src/Execution/Same.antt =====
-- The local runner and the Kubernetes job ask for the same analysis: the call of
-- services/execution_service.py and the job of services/k8s_service.py.
use packamal.Runner.Arguments.{build_analysis_args}
use packamal.Prelude.{
  Text, Option, ℕ, ◌≡◌, is_nonempty, some, text_eq, arith, none, codes, true, ◌∷◌, false, ap, ◌++◌,
  truthy, [], ◌∙◌, refl,
}
use packamal.Runner.{Host, cleaned, Analysis}
use packamal.Execution.Job.{JobEnv, job_of_task, V1Container, sandbox_image}
use packamal.Runner.Run.{Packaml, analysis_of, version_arg}
use packamal.Runner.Flags.{
  Flags, read_command, read_flags, meant, read_command-build_analysis_args, flags, is_supported,
}

-- The call of `run_packaml` of analysis_runner.py.
abbrev pub local_call :
    (package_name package_version ecosystem : Text) (task_id token api_url : Option Text) → Packaml
local_call package_name package_version ecosystem task_id token api_url = record {
  package_name = package_name;
  package_version = some package_version;
  ecosystem = ecosystem;
  local_path = none;
  mode = codes "dynamic";
  analysis_image = none;
  stream_output = true;
  task_id = task_id;
  internal_api_token = token;
  api_url = api_url;
}

-- Not empty, and without blanks around it.
pub record IsClean (strip : Text → Text) (t : Text) : Type 0 where
  pub stripped : strip t ≡ t
  pub visible : is_nonempty t ≡ true

cleaned-clean : (strip : Text → Text) (t : Text) → IsClean strip t → cleaned strip (some t) ≡ some t
cleaned-clean strip [] h = absurd (ground (arith, h.visible))
cleaned-clean strip (c ∷ s) h = ap (λ x. truthy (some x)) h.stripped

module _ {S : Type 0} (host : Host S) (env : JobEnv)
    (name package_name package_version ecosystem : Text) (i : ℕ)
    (task_id token api_url : Option Text) where
  abbrev pub debug_analysis : Analysis
  debug_analysis =
      analysis_of (local_call package_name package_version ecosystem task_id token api_url) true

  abbrev pub worker_container : V1Container
  worker_container = (job_of_task env name ecosystem package_name package_version i).container

  -- For an ecosystem, a package and a version that are clean, where the version is not "latest" and
  -- the worker supports the ecosystem, and with the image at hand, the local command and the job's command are read as the same ecosystem,
  -- package, version and mode, without a local path and without a pull.
  pub debug_analysis-worker_container :
      IsClean host.strip ecosystem
      → IsClean host.strip package_name
      → IsClean host.strip package_version
      → text_eq package_version (codes "latest") ≡ false
      → is_supported ecosystem ≡ true
      → (f g : Flags) × (read_command (build_analysis_args host debug_analysis) ≡ some f)
        × (read_command (worker_container.command ++ worker_container.args) ≡ some g)
        × (f.ecosystem ≡ g.ecosystem)
        × (f.package_name ≡ g.package_name)
        × (f.version ≡ g.version)
        × (f.mode ≡ g.mode)
        × (f.local ≡ g.local)
        × (f.nopull ≡ g.nopull)
  unfolding read_command read_flags job_of_task
  debug_analysis-worker_container e p v fixed known =
      let asked : version_arg (some package_version) ≡ some package_version =
        rw (fixed, version_arg) refl in
      let g =
        flags (some ecosystem) (some package_name) (some package_version) (some (codes "dynamic"))
          none true
          ((codes "-sandbox-image", sandbox_image env)
            ∷ (codes "-dynamic-bucket", codes "file:///results/")
            ∷ []) in
      (
        meant host debug_analysis,
        g,
        read_command-build_analysis_args host debug_analysis
            ∙ rw (cleaned-clean host.strip ecosystem e, known) refl,
        rw known refl,
        cleaned-clean host.strip ecosystem e,
        cleaned-clean host.strip package_name p,
        ap (cleaned host.strip) asked ∙ cleaned-clean host.strip package_version v,
        refl,
        refl,
        refl,
      )
