-- ===== src/Store.antt =====
-- backend/package_analysis/services/report_service.py: the store of the professional reports in
-- Redis, which is a parameter, as are `json`, `datetime`, the request and `str.lower`.
pub mod Laws
use packamal.Models.{AnalysisTask}
use packamal.Prelude.{
  Option, ℕ, Text, ◌++◌, ◌≡◌, ◌∷◌, truthy, some, none, codes, if◌then◌else◌, suc, ◌*◌, length, zero,
  ◌==◌, ◌||◌, [], ◌<◌, ◌≤◌,
}

pub record Redis (R : Type 0) : Type 0 where
  -- `str.encode("utf-8")`, also done by `setex`
  pub encode : Text → Text
  pub get : Text → R → Option Text
  pub setex : Text → (seconds : ℕ) → Text → R → R
  -- none: a negative answer, for a key that lacks or does not expire
  pub ttl : Text → R → Option ℕ
  -- the store when so many seconds have passed
  pub elapse : (seconds : ℕ) → R → R
  pub get-setex :
      (k : Text) (seconds : ℕ) (v : Text) (r : R) → get k (setex k seconds v r) ≡ some (encode v)
  pub ttl-setex :
      (k : Text) (seconds : ℕ) (v : Text) (r : R) → ttl k (setex k seconds v r) ≡ some seconds
  pub get-elapse :
      (k : Text) (t left : ℕ) (r : R)
      → ttl k r ≡ some left
      → t < left
      → get k (elapse t r) ≡ get k r
  pub get-expired :
      (k : Text) (t left : ℕ) (r : R) → ttl k r ≡ some left → left ≤ t → get k (elapse t r) ≡ none

-- `normalize_package_name_for_storage`; 92 is the backslash.
unfoldable pub normalize_package_name_for_storage : Text → Text
normalize_package_name_for_storage [] = []
normalize_package_name_for_storage (c ∷ s) =
    (if (c == b'/') || (c == 92) then b'_' else c) ∷ normalize_package_name_for_storage s

pub record EnhancedReport : Type 0 where
  pub created_at : Text
  pub name : Text
  pub version : Text
  pub ecosystem : Text
  pub purl : Text
  pub started_at : Option Text
  pub completed_at : Option Text
  pub analysis_results : Option Text

pub record ReportMetadata : Type 0 where
  pub filename : Text
  pub size_bytes : ℕ
  pub created_at : Option Text
  pub download_url : Text
  pub folder_structure : Text
  pub redis_key : Text
  pub expires_in_seconds : ℕ

pub record Site : Type 0 where
  pub lower : Text → Text
  pub isoformat : ℕ → Text
  pub dumps : EnhancedReport → Text
  -- `json.loads(blob).get("metadata", {}).get("created_at")`, none on an exception
  pub loads_created_at : Text → Option Text
  pub build_absolute_uri : Text → Text
  -- `settings.PROFESSIONAL_REPORT_TTL_SECONDS`, if it is set
  pub ttl_setting : Option ℕ

abbrev pub optional {ℓ} : {A B : Type ℓ} → (A → B) → Option A → Option B
optional f none = none
optional f (some a) = some (f a)

module _ (site : Site) where
  unfoldable pub build_redis_key : Text → Text → Text → Text
  build_redis_key ecosystem package_name version =
      codes "ecosystem:"
      ++ (site.lower ecosystem
          ++ (codes ":"
              ++ (normalize_package_name_for_storage package_name ++ (codes ":" ++ version))))

  unfoldable pub build_download_path : Text → Text → Text → Text
  build_download_path ecosystem package_name version =
      codes "/reports/"
      ++ (site.lower ecosystem
          ++ (codes "/"
              ++ (normalize_package_name_for_storage package_name
                  ++ (codes "/" ++ (version ++ codes ".json")))))

  -- DEFAULT_TTL_HOURS * HOURS_IN_DAY * SECONDS_IN_MINUTE
  abbrev pub get_ttl_seconds : ℕ
  get_ttl_seconds = elim site.ttl_setting [ none ↦ 24 * 24 * 60 | some seconds ↦ seconds ]

  -- The JSON of the row that `task.report` refers to, or None.
  abbrev pub extract_report_data_from_task : Option Text → Option Text
  extract_report_data_from_task report = report

  -- "duration_seconds" is None: the report's row has no column `time`.
  unfoldable pub build_enhanced_report : ℕ → AnalysisTask → Option Text → EnhancedReport
  build_enhanced_report now task report_json = record {
    created_at = site.isoformat now;
    name = task.package_name;
    version = task.package_version;
    ecosystem = task.ecosystem;
    purl = task.purl;
    started_at = optional site.isoformat task.started_at;
    completed_at = optional site.isoformat task.completed_at;
    analysis_results = report_json;
  }

  -- f"reports/{ecosystem}/{package_name}/"
  abbrev pub folder_of : Text → Text → Text
  folder_of ecosystem package_name =
      codes "reports/" ++ (ecosystem ++ (codes "/" ++ (package_name ++ codes "/")))

  module _ {R : Type 0} (redis : Redis R) where
    -- `ttl_remaining if ttl_remaining and ttl_remaining > 0 else ttl_seconds`
    abbrev pub expires_in : Option ℕ → ℕ → ℕ
    expires_in none ttl_seconds = ttl_seconds
    expires_in (some zero) ttl_seconds = ttl_seconds
    expires_in (some (suc n)) ttl_seconds = suc n

    unfoldable pub build_response_for_existing_report :
        Text → Text → ℕ → Text → Text → Text → R → Text × ReportMetadata
    unfolding build_download_path
    build_response_for_existing_report existing_blob redis_key ttl_seconds ecosystem package_name
          version r =
        let download_url =
          site.build_absolute_uri (build_download_path ecosystem package_name version) in
        (
          download_url,
          record {
            filename = version ++ codes ".json";
            size_bytes = length existing_blob;
            created_at = site.loads_created_at existing_blob;
            download_url = download_url;
            folder_structure = folder_of ecosystem package_name;
            redis_key = redis_key;
            expires_in_seconds = expires_in (redis.ttl redis_key r) ttl_seconds;
          },
        )

    -- `if existing_blob:`
    abbrev pub existing : Text → R → Option Text
    existing redis_key r = truthy (redis.get redis_key r)

    -- The clock is read when the call starts and again for the report.
    unfoldable pub save_professional_report :
        (now later : ℕ) → AnalysisTask → Option Text → R → (Text × ReportMetadata) × R
    unfolding build_redis_key build_download_path build_enhanced_report
        build_response_for_existing_report normalize_package_name_for_storage
    save_professional_report now later task report r =
        let ecosystem = site.lower task.ecosystem in
        let package_name = normalize_package_name_for_storage task.package_name in
        let version = task.package_version in
        let redis_key = build_redis_key ecosystem task.package_name version in
        let report_json = extract_report_data_from_task report in
        let payload = site.dumps (build_enhanced_report later task report_json) in
        let download_url =
          site.build_absolute_uri (build_download_path ecosystem task.package_name version) in
        elim (existing redis_key r) [
          | some blob ↦ (
            build_response_for_existing_report blob redis_key get_ttl_seconds ecosystem package_name
                version r,
            r,
          )
          | none ↦ (
            (
              download_url,
              record {
                filename = version ++ codes ".json";
                size_bytes = length (redis.encode payload);
                created_at = some (site.isoformat now);
                download_url = download_url;
                folder_structure = folder_of ecosystem package_name;
                redis_key = redis_key;
                expires_in_seconds = get_ttl_seconds;
              },
            ),
            redis.setex redis_key get_ttl_seconds payload r,
          )
        ]

    unfoldable pub get_report_from_redis : Text → Text → Text → R → Option Text
    unfolding build_redis_key
    get_report_from_redis ecosystem package_name version r =
        redis.get (build_redis_key ecosystem package_name version) r
