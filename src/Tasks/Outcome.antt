-- ===== src/Tasks/Outcome.antt =====
-- What a Celery task returns or raises, and what tasks.py relies on of Celery.
use packamal.Prelude.{ℕ, ◌≤◌, ◌<◌, ◌≡◌, Option, none, Text, codes, ◌⊎◌, inl, inr, refl}

-- `retry` is `celery.exceptions.Retry`. Of any other exception the program reads `str(error)` and,
-- if there is one, the dictionary `error_details`: its "error_category" and the rest.
pub data Exc : Type 0 where
  retry : Exc
  error : (message : Text) (error_details : Option (Option Text × Text)) → Exc

pub data Outcome {ℓ} (A : Type ℓ) : Type ℓ where
  ret : A → Outcome A
  raise : Exc → Outcome A

-- `self.retry(exc=e)`: it raises `Retry` while retries are left, and `e` afterwards.
pub record Celery : Type 0 where
  pub raised : (retries max_retries : ℕ) → Exc → Exc
  pub raised-left : (r m : ℕ) (e : Exc) → r < m → raised r m e ≡ retry
  pub raised-over : (r m : ℕ) (e : Exc) → m ≤ r → raised r m e ≡ e

-- `@shared_task(bind=True, max_retries=1, ...)`
abbrev pub max_retries : ℕ
max_retries = 1

-- The dictionaries that `run_dynamic_analysis` returns, by their "message" and "cached".
pub data Response : Type 0 where
  already_completed reused_result cached_result : (task_id : ℕ) → Response
  job_submitted : (task_id : ℕ) (job_id : Text) → Response

abbrev pub does_not_exist : Exc
does_not_exist = error (codes "AnalysisTask matching query does not exist.") none

abbrev pub another_task_is_running : Exc
another_task_is_running = error (codes "Another task is running") none

abbrev pub too_many_values : Exc
too_many_values = error (codes "too many values to unpack (expected 2)") none

abbrev pub no_attribute : Exc
no_attribute = error (codes "'NoneType' object has no attribute 'package_name'") none

pub Outcome-cases {ℓ} :
    {A : Type ℓ} (o : Outcome A) → ((a : A) × (o ≡ ret a)) ⊎ ((e : Exc) × (o ≡ raise e))
Outcome-cases (ret a) = inl (a, refl)
Outcome-cases (raise e) = inr (e, refl)
