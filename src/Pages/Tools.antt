-- ===== src/Pages/Tools.antt =====
-- views.py: the pages of the other tools and the one that finds the source of a package, with the
-- functions of helper.py behind them, and `upload_sample` with services/file_service.py.
pub mod Laws
use packamal.Json.{Json, failing, ◌>>=◌}
use packamal.Packages.{PkgPlatform}
use packamal.Packages.Extract.{Archives}
use packamal.Pages.{
  Submission, Page, handle_form_post, valid_form, no_post, invalid_form, form_page, json_page,
}
use packamal.Scanners.{Tools, run_oss_squats, run_oss_find_source, and_with}
use packamal.Scanners.Bandit.{
  BanditReport, run_bandit4mal, PymileReport, run_lastpymile, run_py2src,
}
use packamal.Tasks.Outcome.{Outcome, ret, raise}
use packamal.Prelude.{
  Text, codes, Bool, Option, some, List, [], ◌∷◌, if◌then◌else◌, is_nonempty, text_eq, none,
}

-- `Helper` has no `run_malcontent`, which the page names before it looks at the request.
unfoldable pub malcontent : {A : Type 0} → Submission → Outcome (Page A)
malcontent submitted =
    raise (failing (codes "type object 'Helper' has no attribute 'run_malcontent'"))

unfoldable pub lastpymile :
    {S R : Type 0}
    → (Text → Text)
    → (Text → Option Text → Text → Outcome R)
    → Submission
    → S
    → Outcome (Page (PymileReport R)) × S
unfolding handle_form_post run_lastpymile
lastpymile lower analyze_package =
    handle_form_post (codes "package_analysis/analysis/lastpymile.html")
      (λ name version ecosystem s.
        (ret (run_lastpymile lower analyze_package name (some version) ecosystem), s))
      (codes "lastpymile_report")

-- `URLFinder` of py2src.
pub record UrlFinder : Type 0 where
  pub normalize_url : Text → Outcome Text
  pub test_url_working : Text → Outcome Bool
  pub real_github_url : Text → Outcome Text

-- The loop of `_find_source_urls_for_other_ecosystems`, in the order of the urls.
unfoldable pub working_sources : UrlFinder → List Text → Outcome (List Text)
working_sources finder [] = ret []
working_sources finder (url ∷ urls) =
    let rest = working_sources finder urls in
    let kept =
      finder.real_github_url url >>= (λ source. rest >>= (λ sources. ret (source ∷ sources))) in
    if is_nonempty url
    then finder.normalize_url url
      >>= finder.test_url_working
      >>= (λ works. if works then kept else rest)
    else rest

module _ {S : Type 0} (tools : Tools S) where
  unfoldable pub find_typosquatting : Submission → S → Outcome (Page (List Text)) × S
  unfolding handle_form_post run_oss_squats
  find_typosquatting =
      handle_form_post (codes "package_analysis/analysis/typosquatting.html")
        (λ name version ecosystem. run_oss_squats tools name ecosystem)
        (codes "typosquatting_candidates")

  unfoldable pub bandit4mal :
      {D : Type 0} → PkgPlatform S → Archives S D → Submission → S → Outcome (Page BanditReport) × S
  unfolding handle_form_post run_bandit4mal
  bandit4mal platform archives =
      handle_form_post (codes "package_analysis/analysis/bandit4mal.html")
        (λ name version ecosystem. run_bandit4mal tools platform archives name version ecosystem)
        (codes "bandit4mal_report")

  unfoldable pub find_source_urls_for_other_ecosystems :
      UrlFinder → Text → Text → S → Outcome (List Text) × S
  unfolding working_sources run_oss_find_source
  find_source_urls_for_other_ecosystems finder package_name ecosystem s =
      and_with
        (λ urls s1.
          (working_sources finder urls >>= (λ sources. ret (tools.list_of_set sources)), s1))
        (run_oss_find_source tools package_name ecosystem s)

  abbrev pub find_source_template : Text
  find_source_template = codes "package_analysis/analysis/findsource.html"

  -- A result of py2src is answered as it is.
  unfoldable pub find_source_code :
      (Text → Text → Outcome (List Text))
      → UrlFinder
      → Submission
      → S
      → Outcome (Page (List Text)) × S
  unfolding find_source_urls_for_other_ecosystems run_py2src
  find_source_code get_final_url finder (valid_form name version ecosystem) s =
      and_with (λ sources s1. (ret (json_page (codes "source_urls") sources), s1))
        (if text_eq ecosystem (codes "pypi")
          then (ret (run_py2src get_final_url name ecosystem), s)
          else find_source_urls_for_other_ecosystems finder name ecosystem s)
  find_source_code get_final_url finder no_post s = (ret (form_page find_source_template), s)
  find_source_code get_final_url finder invalid_form s = (ret (form_page find_source_template), s)

-- The fields of an uploaded sample, each of which may lack.
pub record Sample : Type 0 where
  pub file_name : Text
  pub package_name : Option Text
  pub package_version : Option Text
  pub ecosystem : Option Text

-- `FileSystemStorage`, `os` and the local runner, with the exceptions that they raise.
pub record Uploads (S R : Type 0) : Type 0 where
  -- the name under which the file is stored
  pub save : Text → S → Outcome Text × S
  pub url : Text → Text
  pub delete : Text → S → Outcome (Unit {0}) × S
  pub basename : Text → Text
  -- `os.path.join(settings.MEDIA_ROOT, name)`
  pub in_media_root : Text → Text
  pub exists : Text → S → Bool
  -- `os.remove`, whose `OSError` is ignored
  pub remove : Text → S → S
  -- `ExecutionService.run_packaml(...)` with this local path
  pub run_packaml : Sample → (local_path : Text) → S → Outcome R × S

-- None is the status 400.
module _ {S R : Type 0} (uploads : Uploads S R) where
  unfoldable pub handle_uploaded_file : Text → Sample → S → Outcome R × S
  handle_uploaded_file file_path sample s =
      let real_path = uploads.in_media_root (uploads.basename file_path) in
      and_with
        (λ report s1.
          (ret report, if uploads.exists real_path s1 then uploads.remove real_path s1 else s1))
        (uploads.run_packaml sample real_path s)

  -- `finally: fs.delete(filename)`: an exception of its own takes the place of the result.
  unfoldable pub finally_delete : Text → Outcome R × S → Outcome (Option R) × S
  finally_delete filename (result, s) =
      and_with (λ _ s1. (result >>= (λ reports. ret (some reports)), s1))
        (uploads.delete filename s)

  unfoldable pub upload_sample : Option Sample → S → Outcome (Option R) × S
  unfolding handle_uploaded_file finally_delete
  upload_sample none s = (ret none, s)
  upload_sample (some sample) s =
      and_with
        (λ filename s1.
          finally_delete filename (handle_uploaded_file (uploads.url filename) sample s1))
        (uploads.save sample.file_name s)
