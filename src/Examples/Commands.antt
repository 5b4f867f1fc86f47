-- ===== src/Examples/Commands.antt =====
-- A docker daemon that knows its volumes, and commands of the local runner.
use packamal.Runner.Flags.{Flags, read_command}
use packamal.Execution.Same.{debug_analysis-worker_container, debug_analysis, worker_container}
use packamal.Execution.Job.{JobEnv, V1Container}
use packamal.Runner.Arguments.{build_analysis_args}
use packamal.Runner.Flags.{meant, read_command-build_analysis_args, if_supported}
use packamal.Prelude.{
  false, true, none, Text, ◌≡◌, List, some, [], ◌∷◌, Bool, codes, ◌++◌, any_of, if◌then◌else◌, All,
  arith, text_eq_self, text_eq, refl,
}
use packamal.Runner.{
  Host, AnalysisRunner, Analysis, ended, exited, streamed, runner_of, volumes_of, ensure_volumes,
  returned, check_image_exists, Process, checked, cleaned,
}
use packamal.Runner.Volumes.{IsDaemon, ensure_volumes_lem}
use packamal.Runner.Run.{run_analysis, invalid_path, stream}
use packamal.Runner.Commands.{run_analysis-returned, Executed}

abbrev holds : List Text → Text → Bool
holds volumes v = any_of (text_eq v) volumes

abbrev daemon_run : List Text → List Text → Process × List Text
daemon_run (docker ∷ (kind ∷ (sub ∷ (v ∷ [])))) s =
    if text_eq sub (codes "create")
    then (ended (exited 0) [] [], v ∷ s)
    else if holds s v
    then (ended (exited 0) [] [], s)
    else (ended (exited 1) [] [], s)
daemon_run _ s = (ended (exited 0) [] [], s)

abbrev host : Host (List Text)
host = record {
  getenv = λ name. none;
  strip = λ t. t;
  rstrip = λ t. t;
  lower = λ t. t;
  exists = λ t. true;
  is_file = λ t. true;
  readable = λ t. true;
  resolve = λ t. t;
  name = λ t. t;
  run = daemon_run;
  popen = λ command s. (streamed (exited 0) (codes "done" ∷ []), s);
  uuid = λ s. codes "1";
}

abbrev runner : AnalysisRunner
runner = runner_of host none

abbrev local_analysis : Analysis
local_analysis = record {
  ecosystem = some (codes "npm");
  package_name = some (codes "a");
  version = none;
  mode = codes "dynamic";
  local_path = some (codes "a.tgz");
  no_pull = true;
  interactive = false;
  offline = false;
  check_image = true;
  stream_output = true;
  task_id = some (codes "1");
  internal_api_token = none;
  api_url = none;
}

host-IsDaemon : IsDaemon host holds
host-IsDaemon = record {
  inspects = λ v s h. ([], [], rw h refl);
  misses = λ v s h. (0, [], [], rw h refl);
  creates = λ v s h valid. ([], [], v ∷ s, refl, rw (text_eq_self v) refl, λ u k. later u v s k);
}
  where
    later : (u v : Text) (s : List Text) → holds s u ≡ true → holds (v ∷ s) u ≡ true
    later u v s k = ground arith

ensure_volumes_example :
    (s' : List Text) × (ensure_volumes host (volumes_of host runner) [] ≡ (returned tt, s'))
    × All (λ v. holds s' v ≡ true) (volumes_of host runner)
    × ((u : Text) → holds [] u ≡ true → holds s' u ≡ true)
    × (ensure_volumes host (volumes_of host runner) s' ≡ (returned tt, s'))
unfolding runner_of
ensure_volumes_example =
    ensure_volumes_lem host holds host-IsDaemon (volumes_of host runner) []
      (refl, (refl, (refl, (refl, (refl, (refl, (refl, tt)))))))

read_command-build_analysis_args_example :
    read_command (build_analysis_args host local_analysis)
    ≡ if_supported (cleaned host.strip local_analysis.ecosystem) (some (meant host local_analysis))
read_command-build_analysis_args_example = read_command-build_analysis_args host local_analysis

ran : run_analysis host runner local_analysis [] ≡ (returned (exited 0, some (codes "done")), [])
unfolding run_analysis invalid_path check_image_exists checked stream runner_of
ran = refl

run_analysis-returned_example :
    (exited 0 ≡ exited 0)
    × (invalid_path host runner (some (codes "a.tgz")) ≡ none)
    × Executed host runner local_analysis (returned (exited 0, some (codes "done")), [])
run_analysis-returned_example =
    run_analysis-returned host runner local_analysis [] [] (exited 0) (some (codes "done")) ran

abbrev job_env : JobEnv
job_env = record { environ = λ name. none; decimal = λ n. codes "1" }

abbrev local_example : Analysis
local_example =
    debug_analysis host job_env (codes "analysis-a-0a") (codes "a") (codes "1.0") (codes "npm") 1
      none none none

abbrev worker_example : V1Container
worker_example =
    worker_container host job_env (codes "analysis-a-0a") (codes "a") (codes "1.0") (codes "npm") 1
      none none none

debug_analysis-worker_container_example :
    (f g : Flags) × (read_command (build_analysis_args host local_example) ≡ some f)
    × (read_command (worker_example.command ++ worker_example.args) ≡ some g)
    × (f.ecosystem ≡ g.ecosystem)
    × (f.package_name ≡ g.package_name)
    × (f.version ≡ g.version)
    × (f.mode ≡ g.mode)
    × (f.local ≡ g.local)
    × (f.nopull ≡ g.nopull)
debug_analysis-worker_container_example =
    debug_analysis-worker_container host job_env (codes "analysis-a-0a") (codes "a") (codes "1.0")
      (codes "npm") 1 none none none (record { stripped = refl; visible = refl })
      (record { stripped = refl; visible = refl }) (record { stripped = refl; visible = refl }) refl
      refl
