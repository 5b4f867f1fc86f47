-- ===== src/Execution/Job.antt =====
-- services/k8s_service.py: the Kubernetes job that `K8sService.run_analysis` describes.
use packamal.Prelude.{Text, Option, List, none, codes, ℕ, Bool, ◌∷◌, some, [], false, true}

pub data EnvValue : Type 0 where
  literal : Text → EnvValue
  secret_key_ref : (name key : Text) → EnvValue

pub data VolumeSource : Type 0 where
  host_path : (path kind : Text) → VolumeSource
  persistent_volume_claim : (claim_name : Text) → VolumeSource

pub record V1Container : Type 0 where
  pub name : Text
  pub image : Text
  pub image_pull_policy : Text
  pub command : List Text
  pub args : List Text
  pub env : List (Text × EnvValue)
  pub privileged : Bool
  pub requests : List (Text × Text)
  pub limits : List (Text × Text)
  -- names and mount paths
  pub volume_mounts : List (Text × Text)

pub record V1Job : Type 0 where
  pub name : Text
  pub labels : List (Text × Text)
  pub container : V1Container
  pub volumes : List (Text × VolumeSource)
  pub restart_policy : Text
  pub service_account_name : Text
  pub host_pid : Bool
  pub host_network : Bool
  pub backoff_limit : ℕ
  pub ttl_seconds_after_finished : ℕ

-- `os.environ.get(name, default)` and `str(n)`
pub record JobEnv : Type 0 where
  pub environ : Text → Option Text
  pub decimal : ℕ → Text

module _ (env : JobEnv) where
  abbrev pub environ_or : Text → Text → Text
  environ_or name default = elim (env.environ name) [ none ↦ default | some text ↦ text ]

  abbrev pub env_vars : ℕ → List (Text × EnvValue)
  env_vars task_id =
      (
        codes "API_URL",
        literal (
            environ_or (codes "API_URL")
              (codes "http://backend:8000/api/v1/internal/callback/done/")),
      )
      ∷ (codes "TASK_ID", literal (env.decimal task_id))
      ∷ (
        codes "INTERNAL_API_TOKEN",
        secret_key_ref (codes "packamal-secrets") (codes "INTERNAL_API_TOKEN"),
      )
      ∷ (codes "PODMAN_CGROUP_MANAGER", literal (codes "cgroupfs"))
      ∷ (codes "CONTAINERS_CONF", literal (codes "/dev/null"))
      ∷ []

  abbrev pub sandbox_image : Text
  sandbox_image =
      environ_or (codes "SANDBOX_DYNAMIC_ANALYSIS_IMAGE")
        (codes "docker.io/pakaremon/dynamic-analysis")

  abbrev pub job_args : (ecosystem package_name package_version : Text) → List Text
  job_args ecosystem package_name package_version =
      codes "-dynamic-bucket"
      ∷ codes "file:///results/"
      ∷ codes "-ecosystem"
      ∷ ecosystem
      ∷ codes "-package"
      ∷ package_name
      ∷ codes "-version"
      ∷ package_version
      ∷ codes "-sandbox-image"
      ∷ sandbox_image
      ∷ codes "-mode"
      ∷ codes "dynamic"
      ∷ codes "-nopull"
      ∷ []

  abbrev pub worker : (ecosystem package_name package_version : Text) → ℕ → V1Container
  worker ecosystem package_name package_version task_id = record {
    name = codes "analysis-worker";
    image = environ_or (codes "ANALYSIS_IMAGE") (codes "packamal-go-worker-analysis:local");
    image_pull_policy = codes "IfNotPresent";
    command = codes "analyze" ∷ [];
    args = job_args ecosystem package_name package_version;
    env = env_vars task_id;
    privileged = true;
    requests = (codes "cpu", codes "100m") ∷ (codes "memory", codes "2Gi") ∷ [];
    limits = (codes "cpu", codes "2") ∷ (codes "memory", codes "4Gi") ∷ [];
    volume_mounts =
        (codes "container-data", codes "/var/lib/containers")
        ∷ (codes "results", codes "/results")
        ∷ [];
  }

  unfoldable pub job_of_task : (name ecosystem package_name package_version : Text) → ℕ → V1Job
  job_of_task name ecosystem package_name package_version task_id = record {
    name = name;
    labels = (codes "app", codes "analysis-job") ∷ [];
    container = worker ecosystem package_name package_version task_id;
    volumes =
        (
          codes "container-data",
          host_path (codes "/var/lib/containers") (codes "DirectoryOrCreate"),
        )
        ∷ (codes "results", persistent_volume_claim (codes "analysis-results-pvc"))
        ∷ [];
    restart_policy = codes "Never";
    service_account_name = codes "backend-serviceaccount";
    host_pid = false;
    host_network = false;
    backoff_limit = 0;
    ttl_seconds_after_finished = 300;
  }
