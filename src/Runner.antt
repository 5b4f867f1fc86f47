-- ===== src/Runner.antt =====
-- backend/package_analysis/analysis_runner.py: the docker commands that run an analysis on the local
-- host. `os`, `pathlib`, `subprocess` and the docker daemon, with its state `S`, are parameters.
pub mod Arguments
pub mod Flags
pub mod Run
pub mod Volumes
pub mod Commands
use packamal.Prelude.{
  zero, Text, List, Bool, ℕ, Option, none, codes, true, ◌∷◌, truthy, if◌then◌else◌, false, ◌++◌,
  some, [],
}

-- `returncode`: the exit status, or the signal that ended the process (a negative number).
pub data ReturnCode : Type 0 where
  exited : (status : ℕ) → ReturnCode
  signalled : (signal : ℕ) → ReturnCode

abbrev pub succeeded : ReturnCode → Bool
succeeded (exited zero) = true
succeeded _ = false

pub data Failure : Type 0 where
  called_process : (code : ReturnCode) (command : List Text) (output : Option Text) → Failure
  bad_value : Text → Failure
  -- an exception of `subprocess` itself
  not_started : Text → Failure

pub data Ran (A : Type 0) : Type 0 where
  returned : A → Ran A
  failed : Failure → Ran A

-- A process that ended: its standard output and error.
pub data Process : Type 0 where
  ended : (code : ReturnCode) (stdout stderr : Text) → Process
  no_process : Text → Process

-- A process whose lines were read, with the error stream merged into the output.
pub data Stream : Type 0 where
  streamed : (code : ReturnCode) (lines : List Text) → Stream
  no_stream : Text → Stream

pub record Host (S : Type 0) : Type 0 where
  pub getenv : Text → Option Text
  pub strip : Text → Text
  pub rstrip : Text → Text
  pub lower : Text → Text
  -- `Path(p).exists()`, `Path(p).is_file()`, `os.access(p, os.R_OK)`
  pub exists : Text → Bool
  pub is_file : Text → Bool
  pub readable : Text → Bool
  -- `str(Path(p).resolve())`, `Path(p).name`
  pub resolve : Text → Text
  pub name : Text → Text
  -- `subprocess.run(command, ...)` and `subprocess.Popen(command, ...)`
  pub run : List Text → S → Process × S
  pub popen : List Text → S → Stream × S
  -- `str(uuid.uuid4())`
  pub uuid : S → Text

-- The class attributes, and `self.analysis_image`.
pub record AnalysisRunner : Type 0 where
  pub results_volume : Text
  pub static_results_volume : Text
  pub file_write_results_volume : Text
  pub analyzed_packages_volume : Text
  pub logs_volume : Text
  pub strace_logs_volume : Text
  pub container_volume : Text
  pub network : Text
  pub analysis_image : Text

-- The parameters of `run_analysis`.
pub record Analysis : Type 0 where
  pub ecosystem : Option Text
  pub package_name : Option Text
  pub version : Option Text
  pub mode : Text
  pub local_path : Option Text
  pub no_pull : Bool
  pub interactive : Bool
  pub offline : Bool
  pub check_image : Bool
  pub stream_output : Bool
  pub task_id : Option Text
  pub internal_api_token : Option Text
  pub api_url : Option Text

-- `os.getenv(name, default)`
abbrev getenv_or : (Text → Option Text) → Text → Text → Text
getenv_or getenv name default = elim (getenv name) [ none ↦ default | some value ↦ value ]

abbrev pub default_analysis_image : Text
default_analysis_image = codes "docker.io/pakaremon/analysis"

-- `if value: args.extend([...])`
abbrev pub extend_if : Option Text → (Text → List Text) → List Text
extend_if value f = elim (truthy value) [ none ↦ [] | some text ↦ f text ]

-- `if value:` and `if value.strip():`
abbrev pub cleaned : (Text → Text) → Option Text → Option Text
cleaned strip value = elim (truthy value) [ none ↦ none | some text ↦ truthy (some (strip text)) ]

unfoldable pub build_docker_env : Option Text → Option Text → Option Text → List Text
build_docker_env task_id internal_api_token api_url =
    extend_if task_id (λ v. codes "-e" ∷ (codes "TASK_ID=" ++ v) ∷ [])
    ++ (extend_if internal_api_token (λ v. codes "-e" ∷ (codes "INTERNAL_API_TOKEN=" ++ v) ∷ [])
        ++ extend_if api_url (λ v. codes "-e" ∷ (codes "API_URL=" ++ v) ∷ []))

unfoldable pub build_docker_opts : AnalysisRunner → Bool → Bool → List Text
build_docker_opts runner interactive offline =
    codes "run"
    ∷ codes "--cgroupns=host"
    ∷ codes "--privileged"
    ∷ codes "--rm"
    ∷ codes "--cpus=2.0"
    ∷ codes "--memory=4g"
    ∷ codes "--network"
    ∷ (if offline then codes "none" else runner.network)
    ∷ (if interactive then codes "-ti" ∷ [] else [])

module _ {S : Type 0} (host : Host S) where
  unfoldable pub runner_of : Option Text → AnalysisRunner
  runner_of analysis_image =
      let env = getenv_or host.getenv in
      record {
        results_volume = env (codes "RESULTS_VOLUME") (codes "analysis_results");
        static_results_volume =
            env (codes "STATIC_RESULTS_VOLUME") (codes "analysis_static_results");
        file_write_results_volume =
            env (codes "FILE_WRITE_RESULTS_VOLUME") (codes "analysis_write_results");
        analyzed_packages_volume =
            env (codes "ANALYZED_PACKAGES_VOLUME") (codes "analysis_analyzed_packages");
        logs_volume = env (codes "LOGS_VOLUME") (codes "analysis_logs");
        strace_logs_volume = env (codes "STRACE_LOGS_VOLUME") (codes "analysis_strace_logs");
        container_volume = env (codes "CONTAINER_VOLUME") (codes "analysis_container_data");
        network = env (codes "NETWORK") (codes "packamal_packamal-network");
        analysis_image = elim (truthy analysis_image) [
          | none ↦ default_analysis_image
          | some image ↦ image
        ];
      }

  abbrev pub volumes_of : AnalysisRunner → List Text
  volumes_of runner =
      runner.results_volume ∷ runner.static_results_volume ∷ runner.file_write_results_volume
      ∷ runner.analyzed_packages_volume ∷ runner.logs_volume ∷ runner.strace_logs_volume
      ∷ runner.container_volume ∷ []

  -- `subprocess.run(command, check=True)`: a return code that is not zero raises.
  abbrev pub check : List Text → Process × S → Ran Text × S
  check command (ended code stdout stderr, s) =
      if succeeded code
      then (returned stdout, s)
      else (failed (called_process code command (some stdout)), s)
  check command (no_process message, s) = (failed (not_started message), s)

  unfoldable pub checked : List Text → S → Ran Text × S
  checked command s = check command (host.run command s)

  abbrev pub inspect_volume : Text → List Text
  inspect_volume volume = codes "docker" ∷ codes "volume" ∷ codes "inspect" ∷ volume ∷ []

  abbrev pub create_volume : Text → List Text
  create_volume volume = codes "docker" ∷ codes "volume" ∷ codes "create" ∷ volume ∷ []

  -- One round of the loop of `_ensure_volumes`: a volume that is not found is created.
  abbrev pub or_create : Text → Ran Text × S → Ran Text × S
  or_create volume (returned stdout, s) = (returned stdout, s)
  or_create volume (failed (called_process _ _ _), s) = checked (create_volume volume) s
  or_create volume (failed (bad_value message), s) = (failed (bad_value message), s)
  or_create volume (failed (not_started message), s) = (failed (not_started message), s)

  unfoldable pub ensure_volume : Text → S → Ran Text × S
  ensure_volume volume s = or_create volume (checked (inspect_volume volume) s)

  abbrev pub and_then : (S → Ran Unit × S) → Ran Text × S → Ran Unit × S
  and_then rest (returned stdout, s) = rest s
  and_then rest (failed failure, s) = (failed failure, s)

  unfoldable pub ensure_volumes : List Text → S → Ran Unit × S
  ensure_volumes [] s = (returned tt, s)
  ensure_volumes (volume ∷ volumes) s = and_then (ensure_volumes volumes) (ensure_volume volume s)

  abbrev pub inspect_image : Text → List Text
  inspect_image image = codes "docker" ∷ codes "image" ∷ codes "inspect" ∷ image ∷ []

  -- `return True`, and `return False` on a `CalledProcessError`.
  abbrev pub or_absent : Ran Text × S → Ran Bool × S
  or_absent (returned stdout, s) = (returned true, s)
  or_absent (failed (called_process _ _ _), s) = (returned false, s)
  or_absent (failed (bad_value message), s) = (failed (bad_value message), s)
  or_absent (failed (not_started message), s) = (failed (not_started message), s)

  unfoldable pub check_image_exists : Text → S → Ran Bool × S
  check_image_exists image_name s = or_absent (checked (inspect_image image_name) s)
