-- ===== src/Api/Analyze.antt =====
-- views.py `analyze_api`. `unquote`, the broker and the store of the professional reports are
-- parameters. A body is a JSON object whose "priority" is a number, or no JSON.
pub mod Paths
pub mod Laws
use packamal.Tasks.Reuse.{latest_completed, has_result}
use packamal.Tasks.Saves.{message_of}
use packamal.World.{World}
use packamal.Table.{save_row, exclude}
use packamal.Tasks.Outcome.{Exc, Outcome, ret, raise}
use packamal.Purl.{
  Ecosystem, validate_purl_format, pypi, extract_package_info, npm, value_error, rubygems, ok,
  maven,
}
use packamal.Models.{
  AnalysisTask, minute, Status, failed, has_status, running, queued, pending, no_details,
}
use packamal.Orm.{Order, Orm}
use packamal.Purl.{pypi, npm, rubygems, maven, packagist}
use packamal.Prelude.{
  length, ℕ, Bool, ◌*◌, Text, codes, Option, text_eq, some, leb, count_if, ◌&&◌, if◌then◌else◌,
  head?, select, ◌+◌, ◌-◌, none, ◌||◌, ◌++◌, [], ◌∷◌, truthy,
}

-- `body` is `none` if it is no JSON, and else the "purl" and the "priority".
pub record AnalyzeRequest : Type 0 where
  pub is_post : Bool
  pub body : Option (Option Text × ℕ)
  pub api_key : ℕ

pub data Answer : Type 0 where
  only_post missing_purl invalid_purl purl_parsing_failed : Answer
  cached_report : (task_id : ℕ) (result_url : Text) → Answer
  already_active race_prevented :
      (task_id : ℕ) (status : Status) (queue_position : Option ℕ) → Answer
  queued_at_position : (task_id : ℕ) (queue_position : ℕ) → Answer
  failed_to_queue internal_error : Text → Answer

pub record Services : Type 0 where
  pub unquote : Text → Text
  -- `ReportService.save_professional_report`: the download URL
  pub save_professional_report : AnalysisTask → Outcome Text
  -- `apply_async(...)`: an exception of Celery's broker
  pub broker : ℕ → Option Exc
  -- what other handlers do between the query for active tasks and the check for a race
  pub meanwhile : World → World
  -- `json.JSONDecodeError`
  pub decode_error : Text

abbrev pub ecosystem_text : Ecosystem → Text
ecosystem_text pypi = codes "pypi"
ecosystem_text npm = codes "npm"
ecosystem_text rubygems = codes "rubygems"
ecosystem_text maven = codes "maven"
ecosystem_text packagist = codes "packagist"

-- `timedelta(hours=ACTIVE_TASK_WINDOW_HOURS)`, `timedelta(minutes=RACE_CONDITION_CHECK_MINUTES)`
abbrev pub active_window : ℕ
active_window = 24 * 60 * minute

abbrev pub race_window : ℕ
race_window = minute

abbrev pub is_waiting : AnalysisTask → Bool
is_waiting t = has_status running t || (has_status queued t || has_status pending t)

-- `purl=purl, status__in=[...], created_at__gte=...`
abbrev pub is_active_for : Text → ℕ → AnalysisTask → Bool
is_active_for purl now t =
    text_eq t.purl purl && (is_waiting t && leb (now - active_window) t.created_at)

-- `-created_at`
abbrev pub newest : Order
newest a b = leb b.created_at a.created_at

-- `task.queue_position if task.status == STATUS_QUEUED else None`
abbrev pub shown_position : AnalysisTask → Option ℕ
shown_position t = if has_status queued t then t.queue_position else none

abbrev pub new_task : ℕ → ℕ → ℕ → Text → ℕ → Text × Text × Ecosystem → ℕ → AnalysisTask
new_task now i key purl priority (name, version, ecosystem) position = record {
  id = i;
  api_key = some key;
  purl = purl;
  package_name = name;
  package_version = version;
  ecosystem = ecosystem_text ecosystem;
  status = queued;
  created_at = now;
  started_at = none;
  completed_at = none;
  error_message = [];
  error_category = [];
  error_details = no_details;
  report = none;
  download_url = none;
  queue_position = some position;
  priority = priority;
  queued_at = some now;
  timeout_minutes = 30;
  container_id = none;
  last_heartbeat = none;
  job_id = none;
}

-- The row as it is created, before it is queued.
abbrev pub created_row : ℕ → ℕ → ℕ → Text → ℕ → Text × Text × Ecosystem → AnalysisTask
created_row now i key purl priority info = record (new_task now i key purl priority info 0) {
  status = pending;
  queue_position = none;
  queued_at = none;
}

-- The lengths of the columns.
abbrev pub fits : Text → Text × Text × Ecosystem → Bool
fits purl (name, version, ecosystem) =
    leb (length purl) 500 && (leb (length name) 200 && leb (length version) 100)

abbrev pub queue_error : ℕ → Exc → AnalysisTask → AnalysisTask
queue_error now e task = record task {
  status = failed;
  error_message = message_of e;
  error_category = codes "queue_error";
  completed_at = some now;
}

module _ ⦃orm : Orm⦄ (services : Services) (now : ℕ) where
  -- The task is created, queued and sent; a refusal fails it. A text that is too long for its column
  -- raises `DataError`.
  unfoldable pub create_and_queue : ℕ → Text → ℕ → Text × Text × Ecosystem → World → Answer × World
  unfolding save_row
  create_and_queue key purl priority info w =
      let created = w.tasks ++ (created_row now w.next_id key purl priority info ∷ []) in
      let position = count_if (has_status queued) (exclude w.next_id created) + 1 in
      let task = new_task now w.next_id key purl priority info position in
      let saved = save_row task created in
      if fits purl info
      then elim (services.broker task.id) [
        | none ↦ (
          queued_at_position task.id position,
          record w {
            tasks = saved;
            next_id = w.next_id + 1;
            published = (task.id, task.priority) ∷ w.published;
          },
        )
        | some e ↦ (
          failed_to_queue (message_of e),
          record w { tasks = save_row (queue_error now e task) saved; next_id = w.next_id + 1 },
        )
      ]
      else (internal_error orm.data_error, w)

  -- `existing_active_tasks.filter(created_at__gte=...).first()`, a second query.
  unfoldable pub after_active : ℕ → Text → ℕ → Text × Text × Ecosystem → World → Answer × World
  unfolding create_and_queue
  after_active key purl priority info w =
      elim (head? (
        orm.order_by newest (
          select (λ t. leb (now - race_window) t.created_at)
            (select (is_active_for purl now) w.tasks)))) [
              | some task ↦ (race_prevented task.id task.status (shown_position task), w)
              | none ↦ create_and_queue key purl priority info w
            ]

  unfoldable pub after_completed : ℕ → Text → ℕ → Text × Text × Ecosystem → World → Answer × World
  unfolding after_active
  after_completed key purl priority info w =
      elim (head? (orm.order_by newest (select (is_active_for purl now) w.tasks))) [
        | some task ↦ (already_active task.id task.status (shown_position task), w)
        | none ↦ after_active key purl priority info (services.meanwhile w)
      ]

  unfoldable pub on_package : ℕ → Text → ℕ → Text × Text × Ecosystem → World → Answer × World
  unfolding after_completed
  on_package key purl priority info w =
      elim (head? (orm.order_by latest_completed (select (has_result purl) w.tasks))) [
        | some task ↦ elim (services.save_professional_report task) [
          | ret url ↦ (cached_report task.id url, w)
          | raise e ↦ (internal_error (message_of e), w)
        ]
        | none ↦ after_completed key purl priority info w
      ]

  unfoldable pub on_purl : ℕ → Text → ℕ → World → Answer × World
  unfolding on_package validate_purl_format extract_package_info
  on_purl key purl priority w =
      if validate_purl_format services.unquote purl
      then elim (extract_package_info services.unquote purl) [
        | value_error e ↦ (purl_parsing_failed, w)
        | ok info ↦ on_package key purl priority info w
      ]
      else (invalid_purl, w)

  unfoldable pub analyze_api : AnalyzeRequest → World → Answer × World
  unfolding on_purl
  analyze_api request w =
      if request.is_post
      then elim request.body [
        | none ↦ (internal_error services.decode_error, w)
        | some (purl, priority) ↦ elim (truthy purl) [
          | none ↦ (missing_purl, w)
          | some purl ↦ on_purl request.api_key purl priority w
        ]
      ]
      else (only_post, w)
