-- ===== src/Examples/Stores.antt =====
-- A Redis that is a function from keys, and reports in it.
use packamal.Prelude.{
  none, Text, codes, some, ◌++◌, [], Option, if◌then◌else◌, ◌≡◌, text_eq_self, refl, text_eq, ℕ,
  ltb, ◌-◌, ◌<◌, ◌≤◌, arith,
}
use packamal.Store.{
  Redis, Site, save_professional_report, get_report_from_redis, normalize_package_name_for_storage,
  build_redis_key, build_enhanced_report,
}
use packamal.Store.Laws.{save_professional_report_lem, IsSaved}
use packamal.Examples.{row}
use packamal.Models.{AnalysisTask, completed}

-- What a key holds, and the seconds that it has left.
abbrev Keys : Type 0
Keys = Text → Option (Text × ℕ)

abbrev value_of : Option (Text × ℕ) → Option Text
value_of none = none
value_of (some (v, left)) = some v

abbrev left_of : Option (Text × ℕ) → Option ℕ
left_of none = none
left_of (some (v, left)) = some left

abbrev aged : ℕ → Option (Text × ℕ) → Option (Text × ℕ)
aged t none = none
aged t (some (v, left)) = if ltb t left then some (v, left - t) else none

aged-alive :
    (t left : ℕ) (o : Option (Text × ℕ))
    → left_of o ≡ some left
    → t < left
    → value_of (aged t o) ≡ value_of o
aged-alive t left none h l = refl
aged-alive t left (some (v, n)) h l = ground arith

aged-expired :
    (t left : ℕ) (o : Option (Text × ℕ))
    → left_of o ≡ some left
    → left ≤ t
    → value_of (aged t o) ≡ none
aged-expired t left none h l = refl
aged-expired t left (some (v, n)) h l = ground arith

abbrev listed : Redis Keys
listed = record {
  encode = λ t. t;
  get = λ k r. value_of (r k);
  setex = λ k seconds v r j. if text_eq j k then some (v, seconds) else r j;
  ttl = λ k r. left_of (r k);
  elapse = λ t r k. aged t (r k);
  get-setex = λ k seconds v r. rw (text_eq_self k) refl;
  ttl-setex = λ k seconds v r. rw (text_eq_self k) refl;
  get-elapse = λ k t left r h l. aged-alive t left (r k) h l;
  get-expired = λ k t left r h l. aged-expired t left (r k) h l;
}

abbrev no_keys : Keys
no_keys k = none

abbrev site : Site
site = record {
  lower = λ t. t;
  isoformat = λ n. codes "now";
  dumps = λ e. codes "{" ++ e.name;
  loads_created_at = λ t. none;
  build_absolute_uri = λ t. t;
  ttl_setting = none;
}

abbrev scoped : AnalysisTask
scoped = record (row 1 completed) { package_name = codes "@a/b" }

save_professional_report_example :
    IsSaved site listed (λ t. refl) (λ e. refl) 1 2 scoped (some (codes "{}")) no_keys
save_professional_report_example =
    save_professional_report_lem site listed (λ t. refl) (λ e. refl) 1 2 scoped (some (codes "{}"))
      no_keys

-- The report of one package is answered for another one.
confused :
    get_report_from_redis site listed
      (codes "npm")
      (codes "@a_b")
      []
      (save_professional_report site listed 1 2 scoped none no_keys).1
    ≡ some (codes "{@a/b")
unfolding get_report_from_redis save_professional_report build_redis_key build_enhanced_report
    normalize_package_name_for_storage
confused = refl
