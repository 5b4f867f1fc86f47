-- ===== src/Examples/Forms.antt =====
-- Runs of the pages and of the lists of versions on small inputs.
use packamal.Json.{Json, object, field, str, array, item, no_fields, no_items, failing}
use packamal.Pages.Tools.{
  UrlFinder, Uploads, Sample, upload_sample, find_source_code,
  find_source_urls_for_other_ecosystems, working_sources,
}
use packamal.Pages.Tools.Laws.{IsFound, find_source_code-IsFound, upload_sample-deleted}
use packamal.Repository.{Internet}
use packamal.Scanners.{Tools, run_oss_find_source}
use packamal.Tasks.Outcome.{Exc, ret, raise}
use packamal.Versions.{get_versions_for_ecosystem, fetcher, get_rubygems_versions, each}
use packamal.Versions.Laws.{IsListed, get_versions_for_ecosystem-IsListed}
use packamal.Prelude.{
  Text, codes, none, some, List, [], ◌∷◌, ◌++◌, ◌≡◌, refl, true, false, ◌⊎◌, any_of, text_eq,
  select, not, arith,
}

abbrev gem_document : Json
gem_document = array (item (object (field (codes "number") (str (codes "2")) no_fields)) no_items)

abbrev registry : Internet
registry = record {
  get = λ url. ret (record { status_code = 200; json = ret gem_document; text = [] });
  fromisoformat = λ t. ret 0;
  repr = λ v. [];
}

listed_once :
    get_versions_for_ecosystem registry (λ t. t) (codes "rubygems") (codes "p")
    ≡ ret (str (codes "2") ∷ [])
unfolding get_versions_for_ecosystem fetcher get_rubygems_versions each
listed_once = refl

get_versions_for_ecosystem-IsListed_example :
    IsListed registry (λ t. t) (codes "rubygems") (codes "p") (str (codes "2") ∷ [])
get_versions_for_ecosystem-IsListed_example =
    get_versions_for_ecosystem-IsListed registry (λ t. t) (codes "rubygems") (codes "p")
      (str (codes "2") ∷ []) listed_once (λ e. cc)

-- The SARIF file that OSS Find Source wrote, with one result.
abbrev pub sarif : Json
sarif = object (
    field (codes "runs")
      (array (
        item
          (object (
            field (codes "results")
              (array (
                item
                  (object (
                    field (codes "message")
                      (object (field (codes "text") (str (codes "u")) no_fields)) no_fields))
                  no_items))
              no_fields))
          no_items))
      no_fields)

abbrev pub tools : Tools (List Text)
tools = record {
  lower = λ t. t;
  join_path = λ a b. a ++ (b'/' ∷ b);
  analysis_results_dir = codes "r";
  tempdir = codes "t";
  exists = λ path s. true;
  makedirs = λ path s. (ret tt, path ∷ s);
  run_shell = λ line s. (ret tt, s);
  run_command = λ words s. (ret 0, s);
  read_json = λ path s. ret sarif;
  which = λ name. none;
  rmtree = λ path s. (ret tt, s);
  list_of_set = λ xs. xs;
  decimal = λ n. [];
}

abbrev finder : UrlFinder
finder = record {
  normalize_url = λ url. ret url;
  test_url_working = λ url. ret true;
  real_github_url = λ url. ret (codes "g");
}

find_source_code-IsFound_example :
    IsFound tools finder (λ x xs. refl) (codes "a") (codes "npm") [] (codes "g" ∷ [])
unfolding find_source_code find_source_urls_for_other_ecosystems working_sources run_oss_find_source
find_source_code-IsFound_example =
    find_source_code-IsFound tools finder (λ x xs. refl) (λ name ecosystem. ret []) (codes "a")
      (codes "1") (codes "npm") (codes "source_urls") [] (codes "g" ∷ []) refl refl

-- The state is the list of the files that are stored.
abbrev uploads : Uploads (List Text) Text
uploads = record {
  save = λ name s. (ret name, name ∷ s);
  url = λ name. name;
  delete = λ name s. (ret tt, select (λ p. not (text_eq name p)) s);
  basename = λ path. path;
  in_media_root = λ name. name;
  exists = λ path s. any_of (text_eq path) s;
  remove = λ path s. s;
  run_packaml = λ sample path s. (raise (failing (codes "failed")), s);
}

abbrev sample : Sample
sample = record {
  file_name = codes "f";
  package_name = none;
  package_version = none;
  ecosystem = none;
}

deleted :
    (path : Text) (s : List Text)
    → any_of (text_eq path) (select (λ p. not (text_eq path p)) s) ≡ false
deleted path [] = refl
deleted path (p ∷ s) = ground (arith, deleted path s)

upload_sample-deleted_example :
    (any_of (text_eq (codes "f")) (upload_sample uploads (some sample) []).1 ≡ false)
    ⊎ ((e : Exc) × (t : List Text) × ((uploads.delete (codes "f") t).0 ≡ raise e)
        × ((upload_sample uploads (some sample) []).0 ≡ raise e))
upload_sample-deleted_example =
    upload_sample-deleted uploads (λ name s h. deleted name s) sample [] (codes "f" ∷ [])
      (codes "f") refl
