-- ===== src/Runner/Run.antt =====
-- `AnalysisRunner.run_analysis`, `get_result_file` and the function `run_packaml`.
use packamal.Runner.Arguments.{build_docker_mounts, build_analysis_args}
use packamal.Models.{failed}
use packamal.Prelude.{
  Bool, Option, List, Text, none, if◌then◌else◌, some, codes, truthy, not, false, text_eq, ◌∷◌,
  ◌++◌, true, [], ◌||◌, map, join_lines,
}
use packamal.Runner.{
  Host, AnalysisRunner, Analysis, Bool, Option, List, checked, ReturnCode, Text, Ran,
  check_image_exists, ended, ensure_volumes, streamed, returned, succeeded, runner_of, no_stream,
  failed, build_docker_opts, volumes_of, called_process, bad_value, not_started, no_process,
  build_docker_env, Process, Stream,
}

abbrev pub no_such_file : Text → Text
no_such_file p = codes "Local package path does not exist or is not a file: " ++ p

abbrev pub not_readable : Text → Text
not_readable p = codes "Local package path is not readable: " ++ p

module _ {S : Type 0} (host : Host S) (runner : AnalysisRunner) where
  -- The checks of `local_path`: the message of the `ValueError`.
  unfoldable pub invalid_path : Option Text → Option Text
  invalid_path local_path = elim (truthy local_path) [
    | none ↦ none
    | some p ↦
        if not (host.exists p) || not (host.is_file p)
        then some (no_such_file p)
        else if not (host.readable p)
        then some (not_readable p)
        else none
  ]

  abbrev pub docker_cmd : Analysis → List Text
  docker_cmd a =
      codes "docker"
      ∷ (build_docker_opts runner a.interactive a.offline
          ++ (build_docker_mounts host runner a.local_path
              ++ (build_docker_env a.task_id a.internal_api_token a.api_url
                  ++ (runner.analysis_image ∷ build_analysis_args host a))))

  -- `if return_code != 0: raise`
  abbrev pub conclude : ReturnCode → List Text → Option Text → Ran (ReturnCode × Option Text)
  conclude code command output =
      if succeeded code
      then returned (code, output)
      else failed (called_process code command output)

  -- `"\n".join(output_lines) if output_lines else None`, each line without its end
  abbrev pub output_of : List Text → Option Text
  output_of [] = none
  output_of (line ∷ lines) = some (join_lines (map host.rstrip (line ∷ lines)))

  -- `Popen` and the loop over its lines.
  abbrev pub end_of_stream : List Text → Stream × S → Ran (ReturnCode × Option Text) × S
  end_of_stream command (streamed code lines, s) = (conclude code command (output_of lines), s)
  end_of_stream command (no_stream message, s) = (failed (not_started message), s)

  unfoldable pub stream : List Text → S → Ran (ReturnCode × Option Text) × S
  stream command s = end_of_stream command (host.popen command s)

  -- `subprocess.run(..., capture_output=True)`
  abbrev pub end_of_run : List Text → Process × S → Ran (ReturnCode × Option Text) × S
  end_of_run command (ended code stdout stderr, s) =
      (conclude code command (some (stdout ++ stderr)), s)
  end_of_run command (no_process message, s) = (failed (not_started message), s)

  unfoldable pub capture : List Text → S → Ran (ReturnCode × Option Text) × S
  capture command s = end_of_run command (host.run command s)

  abbrev pub execute : Bool → List Text → S → Ran (ReturnCode × Option Text) × S
  execute stream_output command s = if stream_output then stream command s else capture command s

  -- The answer of the check of the image is only written to the log.
  abbrev pub with_image : Analysis → Ran Bool × S → Ran (ReturnCode × Option Text) × S
  with_image a (returned image_exists, s) = execute a.stream_output (docker_cmd a) s
  with_image a (failed failure, s) = (failed failure, s)

  unfoldable pub run_analysis : Analysis → S → Ran (ReturnCode × Option Text) × S
  run_analysis a s = elim (invalid_path a.local_path) [
    | some message ↦ (failed (bad_value message), s)
    | none ↦
        if a.check_image
        then with_image a (check_image_exists host runner.analysis_image s)
        else execute a.stream_output (docker_cmd a) s
  ]

  unfoldable pub get_result_file : Text → S → Ran Text × S
  unfolding checked
  get_result_file package_name s =
      checked host
        (codes "docker"
          ∷ codes "run"
          ∷ codes "--rm"
          ∷ codes "-v"
          ∷ (runner.results_volume ++ codes ":/results")
          ∷ codes "alpine"
          ∷ codes "cat"
          ∷ (codes "/results/" ++ (host.lower package_name ++ codes ".json"))
          ∷ [])
        s

-- The parameters of `run_packaml`.
pub record Packaml : Type 0 where
  pub package_name : Text
  pub package_version : Option Text
  pub ecosystem : Text
  pub local_path : Option Text
  pub mode : Text
  pub analysis_image : Option Text
  pub stream_output : Bool
  pub task_id : Option Text
  pub internal_api_token : Option Text
  pub api_url : Option Text

-- `None if package_version == "latest" else package_version`
abbrev pub version_arg : Option Text → Option Text
version_arg none = none
version_arg (some v) = if text_eq v (codes "latest") then none else some v

abbrev pub analysis_of : Packaml → Bool → Analysis
analysis_of p image_exists = record {
  ecosystem = some p.ecosystem;
  package_name = some p.package_name;
  version = version_arg p.package_version;
  mode = p.mode;
  local_path = p.local_path;
  no_pull = image_exists;
  interactive = false;
  offline = false;
  check_image = true;
  stream_output = p.stream_output;
  task_id = p.task_id;
  internal_api_token = p.internal_api_token;
  api_url = p.api_url;
}

module _ {S : Type 0} (host : Host S) where
  -- The result holds the key "job_id" alone.
  abbrev pub with_result : Text → Ran (ReturnCode × Option Text) × S → Ran Text × S
  with_result job_id (returned (code, output), s) = (returned job_id, s)
  with_result job_id (failed failure, s) = (failed failure, s)

  abbrev pub image_known : AnalysisRunner → Packaml → Text → Ran Bool × S → Ran Text × S
  image_known runner p job_id (returned image_exists, s) =
      with_result job_id (run_analysis host runner (analysis_of p image_exists) s)
  image_known runner p job_id (failed failure, s) = (failed failure, s)

  abbrev pub volumes_made : AnalysisRunner → Packaml → Text → Ran Unit × S → Ran Text × S
  volumes_made runner p job_id (returned _, s) =
      image_known runner p job_id (check_image_exists host runner.analysis_image s)
  volumes_made runner p job_id (failed failure, s) = (failed failure, s)

  -- `AnalysisRunner(analysis_image=...)` ensures the volumes.
  unfoldable pub run_packaml : Packaml → S → Ran Text × S
  run_packaml p s =
      let runner = runner_of host p.analysis_image in
      volumes_made runner p (host.uuid s) (ensure_volumes host (volumes_of host runner) s)
