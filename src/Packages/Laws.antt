-- ===== src/Packages/Laws.antt =====
-- What `download_archive` and `extract_gem` leave behind.
use packamal.Prelude.{inl, inr, Bool-cases, Bool, if◌then◌else◌}
use packamal.Packages.Managers.{pypi_pkg_manager}
use packamal.Packages.Extract.{Archives, remove_temp, after_all, extract_gem, temp_dir_in}
use packamal.Packages.Registries.{first_sdist, get_pypi_archive_url}
use packamal.Prelude.{none, some, List, codes, ◌++◌, false, ◌∙◌, ◌⊎◌}
use packamal.Json.{◌>>=◌, Json, subscript, is_text, iterate}
use packamal.Tasks.Outcome.{ret, Outcome, Outcome-cases, Exc}
use packamal.Prelude.{
  Text, ◌≡◌, some, is_nonempty, arith, true, ◌∷◌, [], sym, subst, ap, inl, refl, inr,
}
use packamal.Packages.{
  PkgPlatform, Text, PkgManager, download_named, ret, some, is_nonempty, ◌∷◌, Outcome,
  download_archive, download_from, ◌>>=◌, raise, List, codes, url_not_found, Exc, Bool,
}

done_then {ℓ} :
    {A : Type ℓ} (o : Outcome (Unit {0})) (a : A) {b : A}
    → (o >>= (λ _. ret a)) ≡ ret b
    → (o ≡ ret tt) × (a ≡ b)
done_then (ret u) a h = (refl, cc)
done_then (raise e) a h = cc

module _ {S : Type 0} (platform : PkgPlatform S) (name version directory : Text) where
  -- A download that worked, by the URL and the file name that the manager computed.
  pub record IsDownloaded (manager : PkgManager S) (s : S) (path : Text) (manager' : PkgManager S)
      (s' : S) : Type 0 where
    pub url : Text
    pub file : Text
    pub url_found : manager.archive_url_func name version ≡ ret (some url)
    pub file_named : manager.archive_filename_func name version url ≡ ret file
    pub is_file : is_nonempty file ≡ true
    pub stored : path ≡ platform.join_path directory file
    pub kept : manager'.archive_filename ≡ some file
    pub fetched : (platform.download_to_path path url s).0 ≡ ret tt
    pub left : s' ≡ (platform.download_to_path path url s).1

  named_lem :
      (url file : Text) (manager : PkgManager S) (s : S) (path : Text)
      → manager.archive_url_func name version ≡ ret (some url)
      → manager.archive_filename_func name version url ≡ ret file
      → (download_named platform directory url file manager s).0 ≡ ret path
      → IsDownloaded manager s path
          (download_named platform directory url file manager s).1
          (download_named platform directory url file manager s).2
  unfolding download_named
  named_lem url [] manager s path u f h = absurd (ground arith)
  named_lem url (c ∷ file) manager s path u f h =
      let (fetched, same) =
        done_then (platform.download_to_path (platform.join_path directory (c ∷ file)) url s).0
          (platform.join_path directory (c ∷ file)) h in
      record {
        url = url;
        file = c ∷ file;
        url_found = u;
        file_named = f;
        is_file = refl;
        stored = sym same;
        kept = refl;
        fetched = subst (λ (p : Text). (platform.download_to_path p url s).0 ≡ ret tt) same fetched;
        left = ap (λ (p : Text). (platform.download_to_path p url s).1) same;
      }

  from_lem :
      (url : Text) (manager : PkgManager S) (s : S) (path : Text)
      → manager.archive_url_func name version ≡ ret (some url)
      → (download_from platform name version directory url manager s).0 ≡ ret path
      → IsDownloaded manager s path
          (download_from platform name version directory url manager s).1
          (download_from platform name version directory url manager s).2
  unfolding download_from
  from_lem url manager s path u h =
      elim (Outcome-cases (manager.archive_filename_func name version url)) [
        | inl (file, f) ↦
            rw (f, download_from)
              (named_lem url file manager s path u f (rw (f, download_from) at h))
        | inr (e, f) ↦ absurd (cc (rw (f, download_from) at h))
      ]

  -- When `download_archive` returns a path, the manager found a URL and computed a nonempty file
  -- name from it, the path is that name in the directory, the URL was downloaded to it without an
  -- error, and the manager keeps the name for `get_base_filename`.
  pub download_archive-IsDownloaded :
      (manager : PkgManager S) (s : S) (path : Text)
      → (download_archive platform name version directory manager s).0 ≡ ret path
      → IsDownloaded manager s path
          (download_archive platform name version directory manager s).1
          (download_archive platform name version directory manager s).2
  unfolding download_archive
  download_archive-IsDownloaded manager s path h =
      elim (Outcome-cases (manager.archive_url_func name version)) [
        | inr (e, u) ↦ absurd (cc (rw (u, download_archive) at h))
        | inl (none, u) ↦ absurd (cc (rw (u, download_archive) at h))
        | inl (some [], u) ↦ absurd (cc (rw (u, download_archive) at h))
        | inl (some (c ∷ url), u) ↦
            rw (u, download_archive)
              (from_lem (c ∷ url) manager s path u (rw (u, download_archive) at h))
      ]

-- No entry of `data['urls']` is a source archive.
pub data HasNoSdist : List Json → Type 0 where
  no_more : HasNoSdist []
  other_kind :
      {url kind : Json} {urls : List Json}
      → subscript (codes "packagetype") url ≡ ret kind
      → is_text (codes "sdist") kind ≡ false
      → HasNoSdist urls
      → HasNoSdist (url ∷ urls)

first_sdist-none : (urls : List Json) → HasNoSdist urls → first_sdist urls ≡ ret none
unfolding first_sdist
first_sdist-none _ no_more = refl
first_sdist-none _ (other_kind {url} {kind} {urls} k t rest) =
    rw (k, t) (first_sdist-none urls rest)

module _ {S D : Type 0} (platform : PkgPlatform S) (env : Archives S D) where
  no_url-lem :
      (name version directory : Text) (manager : PkgManager S) (s : S)
      → manager.archive_url_func name version ≡ ret none
      → download_archive platform name version directory manager s
        ≡ (raise (url_not_found platform name version), manager, s)
  unfolding download_archive
  no_url-lem name version directory manager s e = rw (e, download_archive) refl

  -- If the document of a PyPI release lists no source archive, `download_archive` of the PyPI
  -- manager raises that the archive's URL was not found, and neither the manager nor the files
  -- change.
  pub download_archive-no_sdist :
      (name version directory : Text) (document urls : Json) (entries : List Json) (s : S)
      → platform.fetch_json
          (codes "https://pypi.org/pypi/" ++ (name ++ (codes "/" ++ (version ++ codes "/json"))))
        ≡ ret document
      → subscript (codes "urls") document ≡ ret urls
      → iterate urls ≡ ret entries
      → HasNoSdist entries
      → download_archive platform name version directory (pypi_pkg_manager platform env) s
        ≡ (raise (url_not_found platform name version), pypi_pkg_manager platform env, s)
  unfolding get_pypi_archive_url
  download_archive-no_sdist name version directory document urls entries s d u i none_of =
      no_url-lem name version directory (pypi_pkg_manager platform env) s (
        ap (λ (o : Outcome Json). o >>= subscript (codes "urls") >>= iterate >>= first_sdist) d
        ∙ (ap (λ (o : Outcome Json). o >>= iterate >>= first_sdist) u
            ∙ (ap (λ (o : Outcome (List Json)). o >>= first_sdist) i
                ∙ first_sdist-none entries none_of)))

after_all-state :
    {S : Type 0} (result : Outcome (Unit {0})) (p : Outcome (Unit {0}) × S)
    → (after_all result p).1 ≡ p.1
after_all-state result (ret u, s) = refl
after_all-state result (raise e, s) = refl

after_all-raise :
    {S : Type 0} (result : Outcome (Unit {0})) (e : Exc) (p : Outcome (Unit {0}) × S)
    → p.0 ≡ raise e
    → (after_all result p).0 ≡ raise e
after_all-raise result e (ret u, s) h = cc
after_all-raise result e (raise d, s) h = h

module _ {S D : Type 0} (env : Archives S D) where
  -- The directory is gone, or removing it raised the exception that comes out.
  abbrev pub IsGone : Text → Outcome (Unit {0}) × S → Type 0
  IsGone temp r =
      (env.exists temp r.1 ≡ false)
      ⊎ ((e : Exc) × (s : S) × ((env.rmtree temp s).0 ≡ raise e) × (r.0 ≡ raise e))

  removed-IsGone :
      (temp : Text) (result : Outcome (Unit {0})) (s : S)
      → ((env.rmtree temp s).0 ≡ ret tt → env.exists temp (env.rmtree temp s).1 ≡ false)
      → IsGone temp (after_all result (env.rmtree temp s))
  removed-IsGone temp result s removes = elim (Outcome-cases (env.rmtree temp s).0) [
    | inl (u, e) ↦
        inl (ap (env.exists temp) (after_all-state result (env.rmtree temp s)) ∙ removes e)
    | inr (x, e) ↦ inr (x, s, e, after_all-raise result x (env.rmtree temp s) e)
  ]

  remove_temp-IsGone :
      (temp : Text)
      → ((s : S) → (env.rmtree temp s).0 ≡ ret tt → env.exists temp (env.rmtree temp s).1 ≡ false)
      → (r : Outcome (Unit {0}) × S) → IsGone temp (remove_temp env temp r)
  unfolding remove_temp
  remove_temp-IsGone temp removes (result, s) = elim (Bool-cases (env.exists temp s)) [
    | inl e ↦ rw (e, remove_temp) (removed-IsGone temp result s (removes s))
    | inr e ↦
        subst (λ (r : Outcome (Unit {0}) × S). IsGone temp r)
          (sym
            (ap (λ (b : Bool). if b then after_all result (env.rmtree temp s) else (result, s)) e))
          (inl e)
  ]

  -- If the gem exists and a directory is given, then after `extract_gem` the temporary directory
  -- does not exist, whether the extraction worked or not, unless removing it raised the exception
  -- that comes out. It assumes that a removed directory does not exist.
  pub extract_gem-IsGone :
      (gem_path output_dir : Text) (s : S)
      → ((s' : S)
          → (env.rmtree (temp_dir_in env output_dir) s').0 ≡ ret tt
          → env.exists (temp_dir_in env output_dir) (env.rmtree (temp_dir_in env output_dir) s').1
            ≡ false)
      → env.exists gem_path s ≡ true
      → is_nonempty output_dir ≡ true
      → IsGone (temp_dir_in env output_dir) (extract_gem env gem_path output_dir s)
  unfolding extract_gem
  extract_gem-IsGone gem_path output_dir s removes found given =
      rw (found, given, extract_gem) (remove_temp-IsGone (temp_dir_in env output_dir) removes _)
