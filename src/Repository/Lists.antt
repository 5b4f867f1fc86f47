-- ===== src/Repository/Lists.antt =====
-- repository_service.py: the lists of package names, from a file of the resources or from
-- a registry. `lru_cache` is modelled apart, by `memoized`.
use packamal.Packages.Extract.{then_do}
use packamal.Json.{Json, Items, ◌>>=◌, array, no_items, item, str}
use packamal.Repository.{HttpAnswer, raise, get_list}
use packamal.Prelude.{
  List, Text, codes, Option, ◌∷◌, Bool, if◌then◌else◌, ◌++◌, [], some, ◌==◌, map, none,
}
use packamal.Tasks.Outcome.{Outcome, ret}

-- The files and the documents that are fetched; S is the state of the files.
pub record Disk (S : Type 0) : Type 0 where
  -- `settings.RESOURCES_DIR / name`, and `os.path.join`
  pub resource : Text → Text
  pub join_path : Text → Text → Text
  pub dirname : Text → Text
  pub exists : Text → S → Bool
  pub makedirs : Text → S → Outcome (Unit {0}) × S
  -- the rows that `csv.reader` gives, and `csv.writer` with the rows
  pub read_csv : Text → S → Outcome (List (List Text))
  pub write_csv : Text → List (List Text) → S → Outcome (Unit {0}) × S
  -- `json.load` and `json.dump`
  pub read_json : Text → S → Outcome Json
  pub write_json : Text → Json → S → Outcome (Unit {0}) × S
  -- `requests.get(url, timeout=...)`
  pub get : Text → Outcome HttpAnswer
  -- the texts of BeautifulSoup's `find_all("a")`
  pub find_all_a : Text → List Text
  pub splitlines : Text → List Text
  pub removesuffix : Text → Text → Text
  pub endswith : Text → Text → Bool
  pub listdir : Text → S → List Text
  -- `tempfile.mkdtemp()`
  pub mkdtemp : S → Text × S
  -- `git.Repo.clone_from(url, directory)`
  pub clone_from : Text → Text → S → Outcome (Unit {0}) × S
  -- `os.walk`: for each file its root, its name and its lines, or an exception of `open`
  pub walk : Text → S → List (Text × Text × Outcome (List Text))
  -- `json.loads(line)`
  pub loads : Text → Outcome Json

-- `[row[0] for row in reader if row]`
abbrev pub first_cells : List (List Text) → List Text
first_cells [] = []
first_cells ([] ∷ rows) = first_cells rows
first_cells ((cell ∷ cells) ∷ rows) = cell ∷ first_cells rows

-- `next(reader, None)`
abbrev pub skip_header : List (List Text) → List (List Text)
skip_header [] = []
skip_header (header ∷ rows) = rows

abbrev pub csv_rows : List Text → List (List Text)
csv_rows names = (codes "Package Name" ∷ []) ∷ map (λ name. name ∷ []) names

abbrev pub json_texts : List Text → Items
json_texts [] = no_items
json_texts (t ∷ ts) = item (str t) (json_texts ts)

-- `except Exception`: another result, in the state that the exception left.
abbrev pub except {ℓ} : {S A : Type ℓ} → A → Outcome A × S → Outcome A × S
except other (ret a, s) = (ret a, s)
except other (raise e, s) = (ret other, s)

-- The result once the file is written.
abbrev pub returning : {S A : Type 0} → A → Outcome (Unit {0}) × S → Outcome A × S
returning a = then_do (λ s. (ret a, s))

-- `functools.lru_cache(maxsize=1)` on a function without arguments: what it returned once, it
-- returns again; an exception is not kept.
abbrev pub kept_by {ℓ} : {S A : Type ℓ} → Outcome A × S → Outcome A × (Option A × S)
kept_by (ret a, s) = (ret a, (some a, s))
kept_by (raise e, s) = (raise e, (none, s))

unfoldable pub memoized {ℓ} :
    {S A : Type ℓ} → (S → Outcome A × S) → Option A × S → Outcome A × (Option A × S)
memoized f (some a, s) = (ret a, (some a, s))
memoized f (none, s) = kept_by (f s)

module _ {S : Type 0} (disk : Disk S) where
  -- `makedirs(dirname(path))`, and what follows.
  abbrev pub in_directory : {A : Type 0} → Text → (S → Outcome A × S) → S → Outcome A × S
  in_directory path next s = then_do next (disk.makedirs (disk.dirname path) s)

  unfoldable pub save_csv : Text → List Text → S → Outcome (List Text) × S
  save_csv path names =
      in_directory path (λ s. returning names (disk.write_csv path (csv_rows names) s))

  unfoldable pub save_json : Text → Json → S → Outcome Json × S
  save_json path value = in_directory path (λ s. returning value (disk.write_json path value s))

  -- A list that an answer holds, saved in the file.
  unfoldable pub fetch_csv : Text → Text → (HttpAnswer → List Text) → S → Outcome (List Text) × S
  unfolding save_csv
  fetch_csv path url names_in s = elim (disk.get url) [
    | raise e ↦ (ret [], s)
    | ret response ↦ except [] (save_csv path (names_in response) s)
  ]

  abbrev pub pypi_packages_path : Text
  pypi_packages_path = disk.resource (codes "pypi_package_names.csv")

  abbrev pub fetch_pypi_names : S → Outcome (List Text) × S
  fetch_pypi_names =
      fetch_csv pypi_packages_path (codes "https://pypi.org/simple/")
        (λ response. disk.find_all_a response.text)

  unfoldable pub get_pypi_packages : S → Outcome (List Text) × S
  unfolding fetch_csv
  get_pypi_packages s =
      if disk.exists pypi_packages_path s
      then elim (disk.read_csv pypi_packages_path s) [
        | ret rows ↦ (ret (first_cells (skip_header rows)), s)
        | raise e ↦ fetch_pypi_names s
      ]
      else fetch_pypi_names s

  abbrev pub rubygems_packages_path : Text
  rubygems_packages_path = disk.resource (codes "rubygems_package_names.csv")

  abbrev pub fetch_rubygems_names : S → Outcome (List Text) × S
  fetch_rubygems_names =
      fetch_csv rubygems_packages_path (codes "https://rubygems.org/names")
        (λ response. disk.splitlines response.text)

  unfoldable pub get_rubygems_packages : S → Outcome (List Text) × S
  unfolding fetch_csv
  get_rubygems_packages s =
      if disk.exists rubygems_packages_path s
      then (
        disk.read_csv rubygems_packages_path s >>= (λ rows. ret (first_cells (skip_header rows))),
        s,
      )
      else fetch_rubygems_names s

  abbrev pub npm_packages_path : Text
  npm_packages_path = disk.resource (codes "npm_package_names.json")

  abbrev pub npm_names_url : Text
  npm_names_url =
      codes
        "https://github.com/nice-registry/all-the-package-names/raw/refs/heads/master/names.json"

  unfoldable pub fetch_npm_names : S → Outcome Json × S
  unfolding save_json
  fetch_npm_names s = elim (disk.get npm_names_url) [
    | raise e ↦ (ret (array no_items), s)
    | ret response ↦
        if response.status_code == 200
        then elim response.json [
          | raise e ↦ (ret (array no_items), s)
          | ret names ↦ except (array no_items) (save_json npm_packages_path names s)
        ]
        else (ret (array no_items), s)
  ]

  unfoldable pub get_npm_packages : S → Outcome Json × S
  unfolding fetch_npm_names
  get_npm_packages s =
      if disk.exists npm_packages_path s
      then elim (disk.read_json npm_packages_path s) [
        | ret packages ↦ (ret packages, s)
        | raise e ↦ fetch_npm_names s
      ]
      else fetch_npm_names s

  abbrev pub packagist_packages_path : Text
  packagist_packages_path = disk.resource (codes "packagist_package_names.json")

  -- `{"packages": data.get("packageNames", [])}` of a saved document.
  abbrev pub names_in_document : Outcome Json × S → Outcome Json × S
  names_in_document (o, s) = (o >>= get_list (codes "packageNames"), s)

  unfoldable pub get_packagist_packages : S → Outcome Json × S
  unfolding save_json
  get_packagist_packages s =
      if disk.exists packagist_packages_path s
      then names_in_document (disk.read_json packagist_packages_path s, s)
      else elim (disk.get (codes "https://packagist.org/packages/list.json") >>= (λ r. r.json)) [
        | raise e ↦ (ret (array no_items), s)
        | ret document ↦
            except (array no_items)
              (names_in_document (save_json packagist_packages_path document s))
      ]

  abbrev pub wolfi_urls : List Text
  wolfi_urls =
      codes "https://apk.dag.dev/https/packages.wolfi.dev/os/x86_64/APKINDEX.tar.gz/APKINDEX"
      ∷ codes "https://apk.dag.dev/https/packages.cgr.dev/os/x86_64/APKINDEX.tar.gz/APKINDEX"
      ∷ codes "https://apk.dag.dev/https/packages.cgr.dev/extras/x86_64/APKINDEX.tar.gz/APKINDEX"
      ∷ []

  -- One index: nothing on an exception or another status.
  abbrev pub index_lines : Outcome HttpAnswer → List Text
  index_lines (raise e) = []
  index_lines (ret response) =
      if response.status_code == 200
      then map (disk.removesuffix (codes ".apk")) (disk.splitlines response.text)
      else []

  unfoldable pub wolfi_lines : List Text → List Text
  wolfi_lines [] = []
  wolfi_lines (url ∷ urls) = index_lines (disk.get url) ++ wolfi_lines urls

  unfoldable pub fetch_wolfi_package_list : List Text
  unfolding wolfi_lines
  fetch_wolfi_package_list = wolfi_lines wolfi_urls

  abbrev pub wolfi_packages_path : Text
  wolfi_packages_path = disk.resource (codes "wolfi_package_names.json")

  unfoldable pub get_wolfi_packages : S → Outcome Json × S
  unfolding fetch_wolfi_package_list save_json
  get_wolfi_packages s =
      if disk.exists wolfi_packages_path s
      then (disk.read_json wolfi_packages_path s, s)
      else save_json wolfi_packages_path (array (json_texts fetch_wolfi_package_list)) s
