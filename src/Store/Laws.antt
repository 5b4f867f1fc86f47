-- ===== src/Store/Laws.antt =====
-- What is stored, and under which key.
use packamal.Models.{AnalysisTask}
use packamal.Prelude.{
  Text, ◌≡◌, ◌∷◌, is_nonempty, arith, true, [], ℕ, refl, Option, truthy, some, none, length, ap,
  Option-cases, ◌∙◌, sym, inl, inr, ◌<◌, ◌≤◌,
}
use packamal.Store.{
  Redis, Site, save_professional_report, get_report_from_redis, ReportMetadata, existing,
  build_redis_key, normalize_package_name_for_storage, EnhancedReport, build_download_path,
  build_response_for_existing_report, build_enhanced_report, get_ttl_seconds,
}

normalize-normalize :
    (s : Text)
    → normalize_package_name_for_storage (normalize_package_name_for_storage s)
      ≡ normalize_package_name_for_storage s
unfolding normalize_package_name_for_storage
normalize-normalize [] = refl
normalize-normalize (c ∷ s) = ground (arith, normalize-normalize s)

module _ {R : Type 0} (site : Site) (redis : Redis R)
    (lower_twice : (t : Text) → site.lower (site.lower t) ≡ site.lower t)
    (visible : (e : EnhancedReport) → is_nonempty (redis.encode (site.dumps e)) ≡ true)
    (now later : ℕ) (task : AnalysisTask) (report : Option Text) (r : R) where
  abbrev pub saved : (Text × ReportMetadata) × R
  saved = save_professional_report site redis now later task report r

  abbrev pub key : Text
  key = build_redis_key site (site.lower task.ecosystem) task.package_name task.package_version

  abbrev path : Text → Text
  path name = build_download_path site (site.lower task.ecosystem) name task.package_version

  path-normalize :
      path (normalize_package_name_for_storage task.package_name) ≡ path task.package_name
  unfolding build_download_path
  path-normalize = rw (normalize-normalize task.package_name) refl

  key-alike :
      (name : Text)
      → normalize_package_name_for_storage name
        ≡ normalize_package_name_for_storage task.package_name
      → build_redis_key site task.ecosystem name task.package_version ≡ key
  unfolding build_redis_key
  key-alike name e = rw (e, lower_twice task.ecosystem) refl

  truthy-some : (t : Text) → is_nonempty t ≡ true → truthy (some t) ≡ some t
  truthy-some [] h = absurd cc
  truthy-some (c ∷ s) h = refl

  of_truthy : (o : Option Text) (t : Text) → truthy o ≡ some t → o ≡ some t
  of_truthy none t h = absurd cc
  of_truthy (some []) t h = absurd cc
  of_truthy (some (c ∷ s)) t h = h

  -- A call that finds a report keeps it.
  save-found :
      (n l : ℕ) (rep : Option Text) (blob : Text) (s : R)
      → existing site redis key s ≡ some blob
      → (save_professional_report site redis n l task rep s).1 ≡ s
        × ((save_professional_report site redis n l task rep s).0.0
            ≡ site.build_absolute_uri (path task.package_name))
        × ((save_professional_report site redis n l task rep s).0.1.size_bytes ≡ length blob)
  unfolding save_professional_report build_response_for_existing_report
  save-found n l rep blob s e = (
    rw (e, save_professional_report) refl,
    rw (e, save_professional_report) (ap site.build_absolute_uri path-normalize),
    rw (e, save_professional_report) refl,
  )

  -- A call that finds none stores the report.
  save-stored :
      existing site redis key r ≡ none
      → (blob : Text) × (existing site redis key saved.1 ≡ some blob)
        × (saved.0.0 ≡ site.build_absolute_uri (path task.package_name))
        × (saved.0.1.size_bytes ≡ length blob)
  unfolding save_professional_report
  save-stored e =
      let payload = site.dumps (build_enhanced_report site later task report) in
      (
        redis.encode payload,
        rw (e, save_professional_report)
            (ap truthy (redis.get-setex key (get_ttl_seconds site) payload r)
              ∙ truthy-some (redis.encode payload) (visible _)),
        rw (e, save_professional_report) refl,
        rw (e, save_professional_report) refl,
      )

  -- The report is stored, with its size and URL as answered. Until its time to live has passed,
  -- a later call changes nothing and answers the same URL and size; then the report is gone.
  abbrev pub IsSaved : Type 0
  IsSaved =
      (blob : Text) × ((name : Text)
        → normalize_package_name_for_storage name
          ≡ normalize_package_name_for_storage task.package_name
        → get_report_from_redis site redis task.ecosystem name task.package_version saved.1
          ≡ some blob)
      × (saved.0.1.size_bytes ≡ length blob)
      × (existing site redis key r ≡ none → redis.ttl key saved.1 ≡ some (get_ttl_seconds site))
      × ((t left : ℕ)
          → redis.ttl key saved.1 ≡ some left
          → t < left
          → (n l : ℕ) (rep : Option Text)
          → let kept = redis.elapse t saved.1 in
            let again = save_professional_report site redis n l task rep kept in
            (again.1 ≡ kept)
            × (again.0.0 ≡ saved.0.0)
            × (again.0.1.size_bytes ≡ saved.0.1.size_bytes))
      × ((t left : ℕ) (name : Text)
          → redis.ttl key saved.1 ≡ some left
          → left ≤ t
          → normalize_package_name_for_storage name
            ≡ normalize_package_name_for_storage task.package_name
          → get_report_from_redis site redis task.ecosystem name task.package_version
              (redis.elapse t saved.1)
            ≡ none)

  saved-ttl : existing site redis key r ≡ none → redis.ttl key saved.1 ≡ some (get_ttl_seconds site)
  unfolding save_professional_report
  saved-ttl e = rw (e, save_professional_report) (redis.ttl-setex key (get_ttl_seconds site) _ r)

  is_saved :
      (blob : Text)
      → existing site redis key saved.1 ≡ some blob
      → saved.0.0 ≡ site.build_absolute_uri (path task.package_name)
      → saved.0.1.size_bytes ≡ length blob
      → IsSaved
  unfolding get_report_from_redis
  is_saved blob e url size = (
    blob,
    λ name alike. ap (λ k. redis.get k saved.1) (key-alike name alike) ∙ of_truthy _ blob e,
    size,
    saved-ttl,
    λ t left lives early n l rep.
        let kept = redis.elapse t saved.1 in
        let found = ap truthy (redis.get-elapse key t left saved.1 lives early) ∙ e in
        let (same, url', size') = save-found n l rep blob kept found in
        (same, url' ∙ sym url, size' ∙ sym size),
    λ t left name lives late alike.
        ap (λ k. redis.get k (redis.elapse t saved.1)) (key-alike name alike)
        ∙ redis.get-expired key t left saved.1 lives late,
  )

  -- If lowering is idempotent and a report is not encoded as nothing, then after
  -- `save_professional_report` the store answers a report for the package's ecosystem and version and
  -- for every name that is normalized alike, of the size that was answered. A report that is new
  -- lives for the configured time. A later call for the task, before the report's time to live has
  -- passed, leaves the store as it is and answers the same URL and size; from then on the store
  -- answers no report.
  pub save_professional_report_lem : IsSaved
  save_professional_report_lem = elim (Option-cases (existing site redis key r)) [
    | inl e ↦ let (blob, found, url, size) = save-stored e in is_saved blob found url size
    | inr (blob, e) ↦
        let (same, url, size) = save-found now later report blob r e in
        is_saved blob (ap (existing site redis key) same ∙ e) url size
  ]

  pub saved_url : saved.0.0 ≡ site.build_absolute_uri (path task.package_name)
  saved_url = elim (Option-cases (existing site redis key r)) [
    | inl e ↦ let (blob, found, url, size) = save-stored e in url
    | inr (blob, e) ↦ let (same, url, size) = save-found now later report blob r e in url
  ]
