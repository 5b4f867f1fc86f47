-- ===== src/Models.antt =====
-- backend/package_analysis/models.py: the rows of the tables, and the methods of `AnalysisTask`.
-- Times are microseconds since the epoch; a JSON or text field is the list of its code points.
pub mod Timeout
pub mod Keys
use packamal.Prelude.{
  ℕ, ◌+◌, ◌-◌, ◌*◌, ◌/◌, Bool, true, false, ◌&&◌, not, Option, none, some, Text, codes, ltb, ◌==◌,
  is_some, if◌then◌else◌,
}

pub data Status : Type 0 where
  pending queued submitted running completed failed : Status

-- `AnalysisTask.error_details`: `{}`, what `_handle_timed_out_task` stores, or the `error_details`
-- that an exception carries, with its optional "error_category".
pub data ErrorDetails : Type 0 where
  no_details : ErrorDetails
  timeout_details :
      (timeout_minutes : ℕ) (started_at : Option ℕ) (timed_out_at : ℕ) (container_id : Option Text)
      (container_stopped : Option Bool)
      → ErrorDetails
  exception_details : (error_category : Option Text) (rest : Text) → ErrorDetails

pub record AnalysisTask : Type 0 where
  pub id : ℕ
  pub api_key : Option ℕ
  pub purl : Text
  pub package_name : Text
  pub package_version : Text
  pub ecosystem : Text
  pub status : Status
  pub created_at : ℕ
  pub started_at : Option ℕ
  pub completed_at : Option ℕ
  pub error_message : Text
  pub error_category : Text
  pub error_details : ErrorDetails
  pub report : Option ℕ
  pub download_url : Option Text
  pub queue_position : Option ℕ
  pub priority : ℕ
  pub queued_at : Option ℕ
  pub timeout_minutes : ℕ
  pub container_id : Option Text
  pub last_heartbeat : Option ℕ
  pub job_id : Option Text

-- A row of `ReportDynamicAnalysis` with the `Package` that it belongs to, one to one.
pub record ReportRow : Type 0 where
  pub id : ℕ
  pub package_name : Text
  pub package_version : Text
  pub ecosystem : Text
  pub report : Text

pub record ApiKey : Type 0 where
  pub id : ℕ
  pub name : Text
  pub key : Text
  pub is_active : Bool
  pub rate_limit_per_hour : ℕ
  pub last_used : Option ℕ

abbrev rank : Status → ℕ
rank pending = 0
rank queued = 1
rank submitted = 2
rank running = 3
rank completed = 4
rank failed = 5

-- `task.status == s`
abbrev pub has_status : Status → AnalysisTask → Bool
has_status s t = rank t.status == rank s

-- `timedelta(minutes=1)`
abbrev pub minute : ℕ
minute = 60 * 1000000

-- `status != 'running' or not started_at`
abbrev pub runs_since : AnalysisTask → Option ℕ
runs_since t = if has_status running t then t.started_at else none

unfoldable pub is_timed_out : AnalysisTask → ℕ → Bool
is_timed_out t now = elim (runs_since t) [
  | none ↦ false
  | some started ↦ ltb (started + t.timeout_minutes * minute) now
]

-- `max(0, int(remaining.total_seconds() / 60))`: what is left is below zero exactly when the
-- subtraction on ℕ stops.
unfoldable pub get_remaining_time_minutes : AnalysisTask → ℕ → Option ℕ
get_remaining_time_minutes t now = elim (runs_since t) [
  | none ↦ none
  | some started ↦ some ((started + t.timeout_minutes * minute - now) / minute)
]
