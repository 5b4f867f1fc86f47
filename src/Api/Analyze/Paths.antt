-- ===== src/Api/Analyze/Paths.antt =====
-- The paths of `analyze_api`: the tables are kept, or a task is created.
use packamal.Tasks.Saves.{message_of}
use packamal.Tasks.Outcome.{Outcome-cases}
use packamal.Tasks.Reuse.{latest_completed, has_result}
use packamal.Models.{AnalysisTask}
use packamal.World.{World}
use packamal.Orm.{Orm, IsOrder}
use packamal.Api.Analyze.{
  AnalyzeRequest, Answer, newest, Services, queued_at_position, on_purl, analyze_api, on_package,
  race_prevented, after_completed, failed_to_queue, after_active, only_post, invalid_purl,
  is_active_for, internal_error, create_and_queue, purl_parsing_failed, cached_report, race_window,
  missing_purl, already_active, shown_position,
}
use packamal.Purl.{
  Parsed, ok, Ecosystem, PurlError, validate_purl_format, value_error, extract_package_info,
}
use packamal.Prelude.{
  ℕ, Bool, Option, ◌≡◌, Text, arith, some, ◌⊎◌, none, false, Bool-cases, true, inr, head?,
  Option-cases, select, inl, leb, refl, ◌-◌, subst, sym, truthy,
}

-- A task was created.
abbrev pub is_new : Answer → Bool
is_new (queued_at_position _ _) = true
is_new (failed_to_queue _) = true
is_new _ = false

-- The purl and the priority of a request that names a purl.
abbrev pub purl_of : AnalyzeRequest → Option (Text × ℕ)
purl_of request = elim request.body [
  | none ↦ none
  | some (purl, priority) ↦ elim (truthy purl) [ none ↦ none | some p ↦ some (p, priority) ]
]

pub newest-IsOrder : IsOrder newest
newest-IsOrder = record { total = λ a b. ground arith; trans = λ a b c h k. ground arith }

pub Parsed-cases :
    {A : Type 0} (r : Parsed A) → ((a : A) × (r ≡ ok a)) ⊎ ((e : PurlError) × (r ≡ value_error e))
Parsed-cases (ok a) = inl (a, refl)
Parsed-cases (value_error e) = inr (e, refl)

module _ ⦃orm : Orm⦄ (services : Services) (now : ℕ) where
  abbrev pub active : Text → World → Option AnalysisTask
  active purl w = head? (orm.order_by newest (select (is_active_for purl now) w.tasks))

  -- The second query, for active tasks that were created within the last minute.
  abbrev pub recent : Text → World → Option AnalysisTask
  recent purl w = head? (
      orm.order_by newest (
        select (λ t. leb (now - race_window) t.created_at)
          (select (is_active_for purl now) w.tasks)))

  pub data PurlPath (key : ℕ) (purl : Text) (priority : ℕ) (w : World) (x : Answer × World)
      : Type 0 where
    kept : (a : Answer) → is_new a ≡ false → x ≡ (a, w) → PurlPath key purl priority w x
    raced :
        (t : AnalysisTask)
        → active purl w ≡ none
        → recent purl (services.meanwhile w) ≡ some t
        → x ≡ (race_prevented t.id t.status (shown_position t), services.meanwhile w)
        → PurlPath key purl priority w x
    created :
        (info : Text × Text × Ecosystem)
        → head? (orm.order_by latest_completed (select (has_result purl) w.tasks)) ≡ none
        → active purl w ≡ none
        → recent purl (services.meanwhile w) ≡ none
        → x ≡ create_and_queue services now key purl priority info (services.meanwhile w)
        → PurlPath key purl priority w x

  package_path :
      (key : ℕ) (purl : Text) (priority : ℕ) (info : Text × Text × Ecosystem) (w : World)
      → PurlPath key purl priority w (on_package services now key purl priority info w)
  unfolding on_package after_completed after_active
  package_path key purl priority info w =
      elim (Option-cases
        (head? (orm.order_by latest_completed (select (has_result purl) w.tasks)))) [
          | inr (task, c) ↦ elim (Outcome-cases (services.save_professional_report task)) [
            | inl (url, s) ↦ kept (cached_report task.id url) refl (rw (c, on_package) (rw s refl))
            | inr (e, s) ↦
                kept (internal_error (message_of e)) refl (rw (c, on_package) (rw s refl))
          ]
          | inl c ↦ elim (Option-cases (active purl w)) [
            | inr (task, a) ↦
                kept (already_active task.id task.status (shown_position task)) refl
                  (rw (c, on_package) (rw (a, after_completed) refl))
            | inl a ↦ elim (Option-cases (recent purl (services.meanwhile w))) [
              | inl r ↦
                  created info c a r
                    (rw (c, on_package) (rw (a, after_completed) (rw (r, after_active) refl)))
              | inr (t, r) ↦
                  raced t a r
                    (rw (c, on_package) (rw (a, after_completed) (rw (r, after_active) refl)))
            ]
          ]
        ]

  purl_path :
      (key : ℕ) (purl : Text) (priority : ℕ) (w : World)
      → PurlPath key purl priority w (on_purl services now key purl priority w)
  unfolding on_purl
  purl_path key purl priority w = elim (Bool-cases (validate_purl_format services.unquote purl)) [
    | inr v ↦ kept invalid_purl refl (rw (v, on_purl) refl)
    | inl v ↦ elim (Parsed-cases (extract_package_info services.unquote purl)) [
      | inr (e, p) ↦ kept purl_parsing_failed refl (rw (v, on_purl) (rw p refl))
      | inl (info, p) ↦
          subst (PurlPath key purl priority w) (sym (rw (v, on_purl) (rw p refl)))
            (package_path key purl priority info w)
    ]
  ]

  pub data AnalyzePath (request : AnalyzeRequest) (w : World) (x : Answer × World) : Type 0 where
    kept_tables : (a : Answer) → is_new a ≡ false → x ≡ (a, w) → AnalyzePath request w x
    prevented :
        (purl : Text) (priority : ℕ) (t : AnalysisTask)
        → purl_of request ≡ some (purl, priority)
        → active purl w ≡ none
        → recent purl (services.meanwhile w) ≡ some t
        → x ≡ (race_prevented t.id t.status (shown_position t), services.meanwhile w)
        → AnalyzePath request w x
    created_task :
        (purl : Text) (priority : ℕ) (info : Text × Text × Ecosystem)
        → purl_of request ≡ some (purl, priority)
        → head? (orm.order_by latest_completed (select (has_result purl) w.tasks)) ≡ none
        → active purl w ≡ none
        → recent purl (services.meanwhile w) ≡ none
        → x
          ≡ create_and_queue services now request.api_key purl priority info (services.meanwhile w)
        → AnalyzePath request w x

  with_purl :
      (request : AnalyzeRequest) (w : World) (purl : Text) (priority : ℕ) (x : Answer × World)
      → purl_of request ≡ some (purl, priority)
      → PurlPath request.api_key purl priority w x
      → AnalyzePath request w x
  with_purl request w purl priority x n (kept a h e) = kept_tables a h e
  with_purl request w purl priority x n (raced t a r e) = prevented purl priority t n a r e
  with_purl request w purl priority x n (created info c a r e) =
      created_task purl priority info n c a r e

  pub analyze_path :
      (request : AnalyzeRequest) (w : World)
      → AnalyzePath request w (analyze_api services now request w)
  unfolding analyze_api
  analyze_path request w = elim (Bool-cases request.is_post) [
    | inr p ↦ kept_tables only_post refl (rw (p, analyze_api) refl)
    | inl p ↦ elim (Option-cases request.body) [
      | inl b ↦
          kept_tables (internal_error services.decode_error) refl (rw (p, analyze_api) (rw b refl))
      | inr ((purl, priority), b) ↦ elim (Option-cases (truthy purl)) [
        | inl t ↦ kept_tables missing_purl refl (rw (p, analyze_api) (rw b (rw t refl)))
        | inr (text, t) ↦
            subst (AnalyzePath request w) (sym (rw (p, analyze_api) (rw b (rw t refl)))) (
              with_purl request w text priority _ (rw (b, purl_of) (rw t refl))
                (purl_path request.api_key text priority w))
      ]
    ]
  ]
