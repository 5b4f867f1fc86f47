-- ===== src/Repository/Crates.antt =====
-- repository_service.py: the lists of the crates and of the Maven artifacts. A name in the index
-- that is no text is skipped.
use packamal.Packages.Extract.{then_do}
use packamal.Prelude.{Text, List, ◌∷◌, Bool, codes, if◌then◌else◌, occurs, text_eq, ◌||◌, [], ◌++◌}
use packamal.Tasks.Outcome.{Outcome, ret, raise}
use packamal.Json.{
  Fields, field, Json, no_fields, Items, no_items, array, object, subscript, ◌>>=◌, item, as_text,
}
use packamal.Repository.Lists.{Disk, save_json}

-- `crates[name]` of a `defaultdict(list)`, with `append` of what is given.
unfoldable pub append_to : Text → List Json → List (Text × List Json) → List (Text × List Json)
append_to name new [] = (name, new) ∷ []
append_to name new ((k, versions) ∷ crates) =
    let rest = append_to name new crates in
    if text_eq k name then (k, versions ++ new) ∷ crates else (k, versions) ∷ rest

-- `crates[info["name"]].append(info["vers"])`: without "vers", the entry is there already.
abbrev pub with_vers : Text → Outcome Json → List (Text × List Json) → List (Text × List Json)
with_vers name (ret vers) = append_to name (vers ∷ [])
with_vers name (raise e) = append_to name []

abbrev pub with_info : Outcome Text → Json → List (Text × List Json) → List (Text × List Json)
with_info (ret name) info = with_vers name (subscript (codes "vers") info)
with_info (raise e) info = λ crates. crates

abbrev pub json_array : List Json → Items
json_array [] = no_items
json_array (v ∷ vs) = item v (json_array vs)

abbrev pub json_fields : List (Text × List Json) → Fields
json_fields [] = no_fields
json_fields ((name, versions) ∷ crates) =
    field name (array (json_array versions)) (json_fields crates)

-- `combined_data.update(data)` for an object; another value raises, and nothing is added.
abbrev pub set_field : Text → Json → Fields → Fields
set_field key value no_fields = field key value no_fields
set_field key value (field k v fs) =
    let rest = set_field key value fs in if text_eq k key then field k value fs else field k v rest

abbrev pub update_fields : Fields → Fields → Fields
update_fields no_fields combined = combined
update_fields (field k v fs) combined = update_fields fs (set_field k v combined)

abbrev pub update_by : Outcome Json → Fields → Fields
update_by (ret (object fs)) combined = update_fields fs combined
update_by _ combined = combined

module _ {S : Type 0} (disk : Disk S) where
  -- `for line in f`
  unfoldable pub add_lines : List Text → List (Text × List Json) → List (Text × List Json)
  unfolding append_to
  add_lines [] crates = crates
  add_lines (line ∷ lines) crates = add_lines lines (elim (disk.loads line) [
    | raise e ↦ crates
    | ret info ↦ with_info (subscript (codes "name") info >>= as_text) info crates
  ])

  abbrev pub is_no_crate : Text → Text → Bool
  is_no_crate root file =
      occurs (codes ".git") root
      || (text_eq file (codes "README.md") || text_eq file (codes "config.json"))

  abbrev pub add_file : Outcome (List Text) → List (Text × List Json) → List (Text × List Json)
  add_file (ret lines) crates = add_lines lines crates
  add_file (raise e) crates = crates

  unfoldable pub get_all_crates :
      List (Text × Text × Outcome (List Text)) → List (Text × List Json) → List (Text × List Json)
  unfolding add_lines
  get_all_crates [] crates = crates
  get_all_crates ((root, file, content) ∷ files) crates =
      get_all_crates files (if is_no_crate root file then crates else add_file content crates)

  abbrev pub crates_index_url : Text
  crates_index_url = codes "https://github.com/rust-lang/crates.io-index.git"

  abbrev pub crates_in : Text → S → Outcome (List (Text × List Json)) × S
  crates_in index_dir s = (ret (get_all_crates (disk.walk index_dir s) []), s)

  -- A failed clone gives no crates.
  abbrev pub after_clone : Text → Outcome (Unit {0}) × S → Outcome (List (Text × List Json)) × S
  after_clone index_dir (ret _, s) = crates_in index_dir s
  after_clone index_dir (raise e, s) = (ret [], s)

  unfoldable pub clone_missing : Text → S → Outcome (List (Text × List Json)) × S
  unfolding get_all_crates
  clone_missing index_dir s =
      if disk.exists index_dir s
      then crates_in index_dir s
      else after_clone index_dir (disk.clone_from crates_index_url index_dir s)

  unfoldable pub fetch_crates_package_list : S → Outcome (List (Text × List Json)) × S
  unfolding clone_missing
  fetch_crates_package_list s =
      let (index_dir, s1) = disk.mkdtemp s in
      then_do (clone_missing index_dir) (disk.makedirs index_dir s1)

  abbrev pub rust_packages_path : Text
  rust_packages_path = disk.resource (codes "crates_packages.json")

  abbrev pub save_crates : Outcome (List (Text × List Json)) × S → Outcome Json × S
  save_crates (ret crates, s) = save_json disk rust_packages_path (object (json_fields crates)) s
  save_crates (raise e, s) = (raise e, s)

  unfoldable pub get_rust_packages : S → Outcome Json × S
  unfolding fetch_crates_package_list save_json
  get_rust_packages s =
      if disk.exists rust_packages_path s
      then (disk.read_json rust_packages_path s, s)
      else save_crates (fetch_crates_package_list s)

  unfoldable pub combine : Text → S → List Text → Fields → Fields
  combine resources_dir s [] combined_data = combined_data
  combine resources_dir s (filename ∷ filenames) combined_data = combine resources_dir s filenames (
      if disk.endswith (codes ".json") filename
      then update_by (disk.read_json (disk.join_path resources_dir filename) s) combined_data
      else combined_data)

  unfoldable pub get_maven_packages : S → Json
  unfolding combine
  get_maven_packages s =
      let resources_dir = disk.resource (codes "maven_package_names") in
      if disk.exists resources_dir s
      then object (combine resources_dir s (disk.listdir resources_dir s) no_fields)
      else object no_fields
