-- ===== src/Pages/Tools/Laws.antt =====
-- The sources that `find_source_code` answers, and what `upload_sample` leaves of the file.
use packamal.Json.{ret_of_bind, ◌>>=◌, eq_of_ret}
use packamal.Pages.{Page, valid_form, json_page}
use packamal.Pages.Tools.{
  UrlFinder, working_sources, find_source_code, find_source_urls_for_other_ecosystems, Sample,
  Uploads, handle_uploaded_file, finally_delete, upload_sample,
}
use packamal.Scanners.{Tools, run_oss_find_source, and_with, and_with_ret}
use packamal.Tasks.Outcome.{Exc, Outcome, ret, raise, Outcome-cases}
use packamal.Prelude.{
  ◌↔◌, text_eq→eq, Bool, if◌then◌else◌, subst, ap, ◌∙◌, sym, Text, codes, Option, some, List, [],
  ◌∷◌, ◌≡◌, refl, arith, true, false, ◌⊎◌, inl, inr, any_of, text_eq, text_eq_self, is_nonempty,
  Bool-cases,
}

abbrev pub IsIn : Text → List Text → Type 0
IsIn x xs = any_of (text_eq x) xs ≡ true

module _ (finder : UrlFinder) where
  -- The source is what `real_github_url` gives for a url that is not empty and works.
  abbrev pub IsWorking : Text → Text → Type 0
  IsWorking url source =
      (normalized : Text) × (is_nonempty url ≡ true)
      × (finder.normalize_url url ≡ ret normalized)
      × (finder.test_url_working normalized ≡ ret true)
      × (finder.real_github_url url ≡ ret source)

  abbrev pub FromUrls : List Text → Text → Type 0
  FromUrls urls x = (url : Text) × IsIn url urls × IsWorking url x

  -- A working url among the others, and the first one.
  from_later :
      (url : Text) (urls : List Text) (x : Text) → FromUrls urls x → FromUrls (url ∷ urls) x
  from_later url urls x (u, here, working) = (u, ground (arith), working)

  into_later :
      (source : Text) (found : List Text) (x : Text) → IsIn x found → IsIn x (source ∷ found)
  into_later source found x h = ground arith

  -- Which of the urls a working one is.
  from_cases :
      (url : Text) (urls : List Text) (x : Text)
      → FromUrls (url ∷ urls) x
      → IsWorking url x ⊎ FromUrls urls x
  from_cases url urls x (u, here, working) = elim (Bool-cases (text_eq u url)) [
    | inl e ↦ inl (subst (λ t. IsWorking t x) (text_eq→eq u url e) working)
    | inr e ↦ inr (u, ground arith, working)
  ]

  -- What the loop does with the first url: nothing, or its source is the first one.
  data First (url : Text) (urls sources : List Text) : Type 0 where
    skipped :
        working_sources finder urls ≡ ret sources
        → ((x : Text) → ¬ IsWorking url x)
        → First url urls sources
    kept :
        (source : Text) (found : List Text)
        → working_sources finder urls ≡ ret found
        → sources ≡ source ∷ found
        → IsWorking url source
        → First url urls sources

  first_lem :
      (url : Text) (urls sources : List Text)
      → working_sources finder (url ∷ urls) ≡ ret sources
      → First url urls sources
  unfolding working_sources
  first_lem url urls sources h = elim (Bool-cases (is_nonempty url)) [
    | inr e ↦ skipped (rw e at h) (λ x (n, nonempty, f, m, r). cc)
    | inl e ↦
        let (works, m, k) =
          ret_of_bind (finder.normalize_url url >>= finder.test_url_working) _ (rw e at h) in
        let (normalized, n, tested) = ret_of_bind (finder.normalize_url url) _ m in
        by_test works e n tested k
  ]
    where
      by_test :
          {normalized : Text} (works : Bool)
          → is_nonempty url ≡ true
          → finder.normalize_url url ≡ ret normalized
          → finder.test_url_working normalized ≡ ret works
          → (if works
              then finder.real_github_url url
                >>= (λ source. working_sources finder urls >>= (λ found. ret (source ∷ found)))
              else working_sources finder urls)
            ≡ ret sources
          → First url urls sources
      by_test false e n tested k = skipped k (λ x (o, f, m, w, r). ground arith)
      by_test {normalized} true e n tested k =
          let (source, r, l) = ret_of_bind (finder.real_github_url url) _ k in
          let (found, o, p) = ret_of_bind (working_sources finder urls) _ l in
          kept source found o (sym (eq_of_ret p)) (normalized, e, n, tested, r)

  working_sources_lem :
      (urls sources : List Text) (x : Text)
      → working_sources finder urls ≡ ret sources
      → IsIn x sources ↔ FromUrls urls x
  unfolding working_sources
  working_sources_lem [] sources x h =
      subst (λ s. IsIn x s ↔ FromUrls [] x) (eq_of_ret h)
        ((λ here. absurd cc), λ (u, here, w). absurd cc)
  working_sources_lem (url ∷ urls) sources x h =
      by_first (first_lem url urls sources h) (λ found. working_sources_lem urls found x)
    where
      by_first :
          First url urls sources
          → ((found : List Text)
              → working_sources finder urls ≡ ret found
              → IsIn x found ↔ FromUrls urls x)
          → IsIn x sources ↔ FromUrls (url ∷ urls) x
      by_first (skipped o idle) ih = (
        λ here. from_later url urls x ((ih sources o).0 here),
        λ from. elim (from_cases url urls x from) [
          | inl w ↦ absurd (idle x w)
          | inr later ↦ (ih sources o).1 later
        ],
      )
      by_first (kept source found o p w) ih =
          subst (λ s. IsIn x s ↔ FromUrls (url ∷ urls) x) (sym p)
            (
              (λ here. elim (Bool-cases (text_eq x source)) [
                | inl e ↦ (
                  url,
                  ground (arith, text_eq_self url),
                  subst (IsWorking url) (sym (text_eq→eq x source e)) w,
                )
                | inr e ↦ from_later url urls x ((ih found o).0 (ground arith))
              ]),
              λ from. elim (from_cases url urls x from) [
                | inl (n, e, f, m, r) ↦
                    subst (λ t. IsIn t (source ∷ found)) (eq_of_ret (sym w.4 ∙ r))
                      (ground (arith, text_eq_self source))
                | inr later ↦ into_later source found x ((ih found o).1 later)
              ],
            )

module _ {S A B : Type 0} (f : A → Outcome B) where
  -- A step that leaves the state as it is.
  kept_state : (p : Outcome A × S) → (and_with (λ a s. (f a, s)) p).1 ≡ p.1
  kept_state (ret a, s) = refl
  kept_state (raise e, s) = refl

  still_raised :
      {e : Exc} (p : Outcome A × S) → p.0 ≡ raise e → (and_with (λ a s. (f a, s)) p).0 ≡ raise e
  still_raised (ret a, s) h = cc
  still_raised (raise e, s) h = cc

-- What Django says of `delete`: a file that it deleted does not exist.
abbrev pub IsDeleting : {S R : Type 0} → Uploads S R → Type 0
IsDeleting {S} uploads =
    (name : Text) (s : S)
    → (uploads.delete name s).0 ≡ ret tt
    → uploads.exists (uploads.in_media_root name) (uploads.delete name s).1 ≡ false

module _ {S R : Type 0} (uploads : Uploads S R) (is_deleting : IsDeleting uploads) where
  abbrev reported : Outcome R → Unit {0} → Outcome (Option R)
  reported result _ = result >>= (λ reports. ret (some reports))

  -- If the sample could be stored, then after upload_sample its file does not exist, whether the
  -- analysis returned or raised, unless deleting it raised the exception that comes out. It assumes
  -- that a deleted file does not exist.
  pub upload_sample-deleted :
      (sample : Sample) (s s1 : S) (filename : Text)
      → uploads.save sample.file_name s ≡ (ret filename, s1)
      → (uploads.exists (uploads.in_media_root filename) (upload_sample uploads (some sample) s).1
          ≡ false)
        ⊎ ((e : Exc) × (t : S) × ((uploads.delete filename t).0 ≡ raise e)
            × ((upload_sample uploads (some sample) s).0 ≡ raise e))
  unfolding upload_sample
  upload_sample-deleted sample s s1 filename h =
      rw (h, upload_sample)
        (by_delete (handle_uploaded_file uploads (uploads.url filename) sample s1))
    where
      by_delete :
          (r : Outcome R × S)
          → (uploads.exists (uploads.in_media_root filename) (finally_delete uploads filename r).1
              ≡ false)
            ⊎ ((e : Exc) × (t : S) × ((uploads.delete filename t).0 ≡ raise e)
                × ((finally_delete uploads filename r).0 ≡ raise e))
      by_delete (result, t) = elim (Outcome-cases (uploads.delete filename t).0) [
        | inl (_, e) ↦ inl (
            ap (uploads.exists (uploads.in_media_root filename))
              (kept_state (reported result) (uploads.delete filename t))
            ∙ is_deleting filename t e)
        | inr (e, h) ↦ inr (e, t, h, still_raised (reported result) (uploads.delete filename t) h)
      ]

same_result :
    {A : Type 0} (key key' : Text) {a b : A}
    → ◌≡◌ {A = Outcome (Page A)} (ret (json_page key a)) (ret (json_page key' b))
    → a ≡ b
same_result key key' h = cc

module _ {S : Type 0} (tools : Tools S) (finder : UrlFinder)
    (same : (x : Text) (xs : List Text)
      → any_of (text_eq x) (tools.list_of_set xs) ≡ any_of (text_eq x) xs) where
  abbrev pub IsFound : Text → Text → S → List Text → Type 0
  IsFound name ecosystem s sources =
      (urls : List Text) × (s1 : S) × (run_oss_find_source tools name ecosystem s ≡ (ret urls, s1))
      × ((x : Text) → IsIn x sources ↔ FromUrls finder urls x)

  -- For another ecosystem than pypi, find_source_code answers exactly the sources that
  -- real_github_url gives for urls that OSS Find Source found, that are not empty and that work
  -- once they are normalized. It assumes that the elements of a set are those of the list.
  pub find_source_code-IsFound :
      (get_final_url : Text → Text → Outcome (List Text)) (name version ecosystem key : Text)
      (s : S) (sources : List Text)
      → text_eq ecosystem (codes "pypi") ≡ false
      → (find_source_code tools get_final_url finder (valid_form name version ecosystem) s).0
        ≡ ret (json_page key sources)
      → IsFound name ecosystem s sources
  unfolding find_source_code find_source_urls_for_other_ecosystems
  find_source_code-IsFound get_final_url name version ecosystem key s sources e h =
      let into_page : List Text → S → Outcome (Page (List Text)) × S =
        λ found s2. (ret (json_page (codes "source_urls") found), s2) in
      let into_set : List Text → S → Outcome (List Text) × S =
        λ urls s2. (working_sources finder urls >>= (λ found. ret (tools.list_of_set found)), s2) in
      let shown = rw e at h in
      let (found, s2, p, k) =
        and_with_ret into_page (find_source_urls_for_other_ecosystems tools finder name ecosystem s)
          shown in
      let (urls, s1, q, l) =
        and_with_ret into_set (run_oss_find_source tools name ecosystem s)
          (ap (λ (r : Outcome (List Text) × S). r.0) p) in
      let (ws, o, r) =
        ret_of_bind (working_sources finder urls) _
          (ap (λ (x : Outcome (List Text) × S). x.0) (sym l ∙ p)) in
      (
        urls,
        s1,
        q,
        λ x.
            subst (λ xs. IsIn x xs ↔ FromUrls finder urls x)
              (eq_of_ret r
                ∙ same_result _ _
                    (sym (ap (λ (y : Outcome (Page (List Text)) × S). y.0) k) ∙ shown))
              (subst (λ b. (b ≡ true) ↔ FromUrls finder urls x) (sym (same x ws))
                (working_sources_lem finder urls ws x o)),
      )
