-- ===== src/Api/Listing.antt =====
-- views.py `list_tasks_api`, for a page and a page size that are no negative numbers.
pub mod Pages
use packamal.Api.Analyze.{shown_position, newest}
use packamal.Models.{Status, AnalysisTask, pending, queued, submitted, running, completed}
use packamal.Orm.{Orm}
use packamal.Models.{pending, queued, submitted, running, completed, failed}
use packamal.Prelude.{
  ℕ, Bool, List, Text, if◌then◌else◌, Option, codes, suc, ◌&&◌, none, leb, select, false, map, some,
  take, ◌==◌, true, text_eq, drop, ◌*◌, length, zero, truthy,
}

-- `none` is a text that is no integer.
pub record ListRequest : Type 0 where
  pub is_get : Bool
  pub page : Option ℕ
  pub page_size : Option ℕ
  pub status : Option Text
  pub api_key : ℕ

-- What is shown of a task. The URL of its report is shown by the report's id.
pub record Item : Type 0 where
  pub task_id : ℕ
  pub purl : Text
  pub status : Status
  pub created_at : ℕ
  pub package_name : Text
  pub package_version : Text
  pub ecosystem : Text
  pub priority : ℕ
  pub queue_position : Option ℕ
  pub queued_at : Option ℕ
  pub result_url : Option ℕ
  pub download_url : Option Text
  pub error_message : Option Text
  pub error_category : Option Text

pub data Listed : Type 0 where
  only_get invalid_pagination negative_indexing : Listed
  listed : (items : List Item) (page page_size total : ℕ) → Listed

unfoldable pub item_of : AnalysisTask → Item
item_of t = record {
  task_id = t.id;
  purl = t.purl;
  status = t.status;
  created_at = t.created_at;
  package_name = t.package_name;
  package_version = t.package_version;
  ecosystem = t.ecosystem;
  priority = t.priority;
  queue_position = shown_position t;
  queued_at = t.queued_at;
  result_url = t.report;
  download_url = t.download_url;
  error_message = truthy (some t.error_message);
  error_category = truthy (some t.error_category);
}

abbrev pub status_text : Status → Text
status_text pending = codes "pending"
status_text queued = codes "queued"
status_text submitted = codes "submitted"
status_text running = codes "running"
status_text completed = codes "completed"
status_text failed = codes "failed"

abbrev pub owned_by : ℕ → AnalysisTask → Bool
owned_by key t = elim t.api_key [ none ↦ false | some k ↦ k == key ]

abbrev pub is_shown : ℕ → Option Text → AnalysisTask → Bool
is_shown key status t =
    owned_by key t
    && elim (truthy status) [ none ↦ true | some s ↦ text_eq (status_text t.status) s ]

-- `min(100, max(1, n))`
abbrev pub clamped : ℕ → ℕ
clamped n = if leb n 1 then 1 else if leb n 100 then n else 100

module _ ⦃orm : Orm⦄ where
  abbrev pub rows_of : ℕ → Option Text → List AnalysisTask → List AnalysisTask
  rows_of key status ts = orm.order_by newest (select (is_shown key status) ts)

  -- `qs[start:end]`; Django refuses a negative start.
  unfoldable pub page_of : ℕ → ℕ → List AnalysisTask → Listed
  page_of zero size rows = negative_indexing
  page_of (suc before) size rows =
      listed (map item_of (take size (drop (before * size) rows))) (suc before) size (length rows)

  unfoldable pub list_tasks_api : ListRequest → List AnalysisTask → Listed
  unfolding page_of
  list_tasks_api request ts =
      if request.is_get
      then elim request.page [
        | none ↦ invalid_pagination
        | some page ↦ elim request.page_size [
          | none ↦ invalid_pagination
          | some size ↦ page_of page (clamped size) (rows_of request.api_key request.status ts)
        ]
      ]
      else only_get
