-- ===== src/Lib.antt =====
-- Pack-A-Mal: the back end that queues packages for dynamic analysis, hands them to a sandbox and
-- keeps what it reports.
--
-- The program. Clients name a package by a purl; the API stores an `AnalysisTask` and sends its id
-- to Celery. `run_dynamic_analysis` takes the single running slot, reuses a result or starts a
-- sandbox (Docker in development, a Kubernetes job in production), and starts the next queued task.
-- Periodic tasks time tasks out and delete old ones. All handlers share the tables of the database.
--
-- Files and what they model (paths under backend/package_analysis/):
--   Prelude: tests, lists and texts on the native numbers.
--   Models: models.py. Times are microseconds, so a `datetime` is a number and `timedelta` a sum.
--   Table: `AnalysisTask.objects.get`, `task.save()`, `.exclude`; Table.Ids and Table.Counts hold
--     what a save does to lookups and to counts.
--   Orm: `.order_by` as an interface. Any rearrangement in the asked order satisfies it;
--     Orm.Insertion is one.
--   World: the tables and the messages sent to Celery, passed from handler to handler.
--   Purl: utils.py.
--   Execution: helper.py, services/execution_service.py and services/k8s_service.py, as far as
--     `run_packaml` starts an analysis. Job is the Kubernetes job, Same compares it with the local
--     command.
--   Tasks: tasks.py. Reuse is `_reuse_existing_result` and what it saves, Queue is
--     `_process_next_queued_task` and `_update_queue_positions`, Prepare is
--     `_check_and_prepare_task`, Saves are the handlers that end a task, Run is
--     `run_dynamic_analysis`, Timeouts is `check_timeouts` with container_manager.py's
--     `stop_container`, Cleanup is `cleanup_old_tasks`, Jobs are the handlers of failed and of running
--     Kubernetes jobs. The modules below each hold the proofs.
--   Api: views.py and auth.py. Callback is `job_completed_api` with services/report_service.py's
--     `save_report_to_database`, Analyze is `analyze_api`, Listing is `list_tasks_api`, Auth is
--     auth.py, TaskService is services/task_service.py with `task_queue_position_api`, Status are the
--     endpoints that report the state of a task, of the queue and of the timeouts, Steps are the
--     functions for the steps of `analyze_api`.
--   Store: services/report_service.py, the professional reports in Redis.
--   Runner: analysis_runner.py. Run is `run_analysis`, `get_result_file` and `run_packaml`, Arguments
--     are the command lines, Flags reads them back.
--   Containers: container_manager.py, but for `stop_container`. Ids is what
--     `extract_container_id_from_command` finds, Listing is `get_running_containers`.
--   Reports: report_generator.py. Rules is what YARA's matches add to the report.
--   Malcontent: src/yara/report/report.py. Risk rates files and behaviors, Unique and
--     Longest are about `longest_unique`.
--   Envelope: api_utils.py.
--   Json: the values that the registries' documents and the files of names hold.
--   Packages: src/internal/pkgmanager and src/internal/pkg/programkind.py. Registries are the
--     functions of the six registries, Managers the managers and `pkg`, Extract is `Extracter`.
--   Repository: services/repository_service.py. Lists and Crates are the lists of names with their
--     files, Latest is about the latest version, Caches about what the files give back.
--   Scanners: services/execution_service.py, the runners of OSS Gadget, bandit4mal, LastPyMile and
--     py2src. Bandit is `run_bandit4mal` on the archive that a package manager downloads.
--   Versions: services/package_version_service.py and the endpoints that answer with versions.
--   Pages: the pages of views.py with a form, the status page of a task and the pages of the reports.
--     Tools are the pages of the scanners and `upload_sample` with services/file_service.py.
--   Examples: concrete tables and runs.
--
-- Unique columns. Ids are distinct, and `AnalysisTask.report` is a `OneToOneField`: a save that gives a
-- task the report of another row raises `IntegrityError` (Tasks.Reuse, `clashes`).
--
-- Parameters. Django's ORM, its cache, Redis, the files that the worker leaves, YARA, Celery's retry,
-- Docker, the Kubernetes API, the uuid generator, `json`, `pathlib`, `requests`, subprocesses, the
-- readers of archives and `unquote` are arguments of the definitions that use them; the callback takes
-- the report generator and the store as arguments too.
--
-- Concurrency. A transaction is one function on the tables: transactions are taken to run one after the other, and
-- a row that a handler locks to be the row that it saves. The code locks the row of its own task
-- alone, so under PostgreSQL's READ COMMITTED the checks of two tasks that start at the same moment
-- may miss one another; the theorems on the running slot do not cover that. `Env.meanwhile` stands
-- for whatever other handlers do while an analysis starts, `Services.meanwhile` for what they do
-- between the two queries of `analyze_api`. The creation of a task there, its queueing and its
-- message follow one another with nothing in between.
--
-- Fuel. `_process_next_queued_task` calls itself after each reuse. The model gives it one unit more
-- than the number of queued tasks, each reuse takes one task off the queue, and
-- Tasks.Queue.Rounds shows that further fuel changes nothing.
--
-- Columns. A text that is too long for `AnalysisTask.job_id`, for the columns of a new task or for
-- those of a package raises `DataError`; the bounds of other columns are left out.
--
-- Not modelled: log messages, the reconciliation of Kubernetes jobs (its body is empty), the handlers
-- of tasks.py that nothing calls and that import a name which views.py does not have, what `generate`
-- of src/yara/report/report.py does with the metadata of rules, routes that only render a template or
-- pass on a list of packages, settings and forms of Django, the worker in its sandbox, and the copies
-- of other tools (bandit4mal, lastpymile, py2src), whose calls are parameters.
pub mod Api
pub mod Containers
pub mod Envelope
pub mod Examples
pub mod Execution
pub mod Json
pub mod Malcontent
pub mod Models
pub mod Orm
pub mod Packages
pub mod Pages
pub mod Prelude
pub mod Purl
pub mod Reports
pub mod Repository
pub mod Runner
pub mod Store
pub mod Scanners
pub mod Versions
pub mod Table
pub mod Tasks
pub mod World
