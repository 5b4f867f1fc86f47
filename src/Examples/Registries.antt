-- ===== src/Examples/Registries.antt =====
-- Runs of the lists of packages and of the archives on small inputs.
use packamal.Packages.{instant, replace}
use packamal.Tasks.Outcome.{ret, raise}
use packamal.Packages.Extract.{Archives, temp_dir_in, extract_gem}
use packamal.Prelude.{
  All, subst, Text, Option, none, List, codes, any_of, refl, [], ◌∷◌, ◌≡◌, ◌++◌, sym, true, text_eq,
  length, is_some, some, ◌∙◌, select, not, false, arith,
}
use packamal.Packages.Laws.{IsGone, extract_gem-IsGone}
use packamal.Repository.Caches.{IsDisk, IsRead, IsOneLine, get_pypi_packages-again}
use packamal.Repository.Latest.{IsLatest, get_latest_package_version-IsLatest}
use packamal.Json.{
  eq_of_ret, Json, object, field, str, array, item, no_fields, no_items, failing, null,
}
use packamal.Repository.Lists.{get_pypi_packages, Disk, fetch_csv, save_csv}
use packamal.Repository.{
  HttpAnswer, Internet, get_latest_package_version, scan, consider, released, later_of,
  published_at,
}

abbrev entry : Text → Text → Json
entry version time = object (
    field (codes "versionKey") (object (field (codes "version") (str version) no_fields))
      (field (codes "publishedAt") (str time) no_fields))

-- A version without a time, one of time 3 and one of time 2.
abbrev document : Json
document = object (
    field (codes "versions")
      (array (
        item (object no_fields) (
          item (entry (codes "2") (codes "ttt")) (item (entry (codes "1") (codes "tt")) no_items))))
      no_fields)

abbrev net : Internet
net = record {
  get = λ url. ret (record { status_code = 200; json = ret document; text = [] });
  fromisoformat = λ t. ret (length t);
  repr = λ v. [];
}

latest_is_2 : get_latest_package_version net (codes "p") (codes "npm") ≡ str (codes "2")
unfolding get_latest_package_version scan consider released later_of published_at instant replace
latest_is_2 = refl

get_latest_package_version-IsLatest_example :
    IsLatest net
      (codes "p")
      (codes "npm")
      (get_latest_package_version net (codes "p") (codes "npm"))
get_latest_package_version-IsLatest_example =
    get_latest_package_version-IsLatest net (codes "p") (codes "npm")
      (λ e. cc (sym latest_is_2 ∙ e))

-- A disk with one file at most.
abbrev disk : Disk (Option (List (List Text)))
disk = record {
  resource = λ name. name;
  join_path = λ a b. a ++ b;
  dirname = λ path. [];
  exists = λ path s. is_some s;
  makedirs = λ path s. (ret tt, s);
  read_csv = λ path s. elim s [ none ↦ raise (failing []) | some rows ↦ ret rows ];
  write_csv = λ path rows s. (ret tt, some rows);
  read_json = λ path s. raise (failing []);
  write_json = λ path v s. (ret tt, s);
  get = λ url. ret (record { status_code = 200; json = ret null; text = codes "ab" });
  find_all_a = λ text. text ∷ [];
  splitlines = λ text. text ∷ [];
  removesuffix = λ suffix text. text;
  endswith = λ suffix text. false;
  listdir = λ path s. [];
  mkdtemp = λ s. (codes "t", some []);
  clone_from = λ url path s. (ret tt, s);
  walk = λ path s. [];
  loads = λ line. ret null;
}

disk-IsDisk : IsDisk disk
disk-IsDisk = record {
  read-write = λ path rows s plain h. refl;
  exists-write = λ path rows s h. refl;
}

fetches_ab : (get_pypi_packages disk none).0 ≡ ret (codes "ab" ∷ [])
unfolding get_pypi_packages fetch_csv save_csv
fetches_ab = refl

ab_IsOneLine :
    (response : HttpAnswer)
    → disk.get (codes "https://pypi.org/simple/") ≡ ret response
    → All IsOneLine (disk.find_all_a response.text)
ab_IsOneLine response e =
    subst (λ (r : HttpAnswer). All IsOneLine (disk.find_all_a r.text)) (eq_of_ret e)
      (omega arith, tt)

get_pypi_packages-again_example :
    IsRead disk disk-IsDisk (get_pypi_packages disk) (get_pypi_packages disk none)
get_pypi_packages-again_example =
    get_pypi_packages-again disk disk-IsDisk none refl ab_IsOneLine (λ e. cc (sym fetches_ab ∙ e))

-- The state is the list of the paths that exist.
abbrev archives : Archives (List Text) Text
archives = record {
  join_path = λ a b. a ++ (b'/' ∷ b);
  dirname = λ path. path;
  ends_with = λ suffix path. true;
  exists = λ path s. any_of (text_eq path) s;
  makedirs = λ path s. (ret tt, path ∷ s);
  write_file = λ path content s. (ret tt, path ∷ s);
  open_gzip = λ path s. ret path;
  open_tar = λ stream. ret [];
  extract_tar_file = λ path directory s. (ret tt, s);
  extract_tar_gz_file = λ path directory s. (ret tt, s);
  extract_zip_file = λ path directory s. (ret tt, s);
  rmtree = λ path s. (ret tt, select (λ p. not (text_eq path p)) s);
}

removed :
    (path : Text) (s : List Text)
    → any_of (text_eq path) (select (λ p. not (text_eq path p)) s) ≡ false
removed path [] = refl
removed path (p ∷ s) = ground (arith, removed path s)

-- The gem holds no data.tar.gz.
extract_gem-IsGone_example :
    IsGone archives
      (temp_dir_in archives (codes "o"))
      (extract_gem archives (codes "g") (codes "o") (codes "g" ∷ []))
extract_gem-IsGone_example =
    extract_gem-IsGone archives (codes "g") (codes "o") (codes "g" ∷ [])
      (λ s h. removed (temp_dir_in archives (codes "o")) s) refl refl
