-- ===== src/Packages/Extract.antt =====
-- src/internal/pkgmanager/utils.py: `Extracter`. The file system and the readers of gzip, tar and
-- zip are parameters.
use packamal.Tasks.Saves.{message_of}
use packamal.Json.{failing}
use packamal.Prelude.{Text, List, Bool, codes, ◌++◌, [], ◌∷◌, if◌then◌else◌, is_nonempty}
use packamal.Tasks.Outcome.{Outcome, Exc, ret, raise}

pub data Kind (D : Type 0) : Type 0 where
  directory : Kind D
  -- what `tar.extractfile(member).read()` returns or raises
  regular : Outcome D → Kind D
  other_type : Text → Kind D

pub record Member (D : Type 0) : Type 0 where
  pub name : Text
  pub kind : Kind D

pub record Archives (S D : Type 0) : Type 0 where
  pub join_path : Text → Text → Text
  pub dirname : Text → Text
  pub ends_with : Text → Text → Bool
  pub exists : Text → S → Bool
  -- `os.makedirs(path, exist_ok=True)`
  pub makedirs : Text → S → Outcome (Unit {0}) × S
  -- `open(path, 'wb')` and `write`
  pub write_file : Text → D → S → Outcome (Unit {0}) × S
  -- `gzip.open(path)`, and `tarfile.open(fileobj=..., mode="r:*")` with `getmembers()`
  pub open_gzip : Text → S → Outcome D
  pub open_tar : D → Outcome (List (Member D))
  -- `extractall(directory)` of the tar file at a path, of the tar file in the gzip file at a path, and
  -- of the zip file at a path
  pub extract_tar_file : Text → Text → S → Outcome (Unit {0}) × S
  pub extract_tar_gz_file : Text → Text → S → Outcome (Unit {0}) × S
  pub extract_zip_file : Text → Text → S → Outcome (Unit {0}) × S
  -- `shutil.rmtree(path, onerror=handle_remove_readonly)`
  pub rmtree : Text → S → Outcome (Unit {0}) × S

-- The next step, unless this one raised.
abbrev pub then_do {ℓ} :
    {S A : Type ℓ} → (S → Outcome A × S) → Outcome (Unit {0}) × S → Outcome A × S
then_do next (ret _, s) = next s
then_do next (raise e, s) = (raise e, s)

-- `except Exception as e: raise RuntimeError(f"...: {e}")`
abbrev pub wrapped {ℓ} : {S A : Type ℓ} → Text → Outcome A × S → Outcome A × S
wrapped prefix (ret a, s) = (ret a, s)
wrapped prefix (raise e, s) = (raise (failing (prefix ++ message_of e)), s)

-- `try: ... finally: cleanup`: what the cleanup raises replaces the result.
abbrev pub after_all {ℓ} : {S A : Type ℓ} → Outcome A → Outcome (Unit {0}) × S → Outcome A × S
after_all result (ret _, s) = (result, s)
after_all result (raise e, s) = (raise e, s)

module _ {S D : Type 0} (env : Archives S D) where
  abbrev write_member : Text → Outcome D → S → Outcome (Unit {0}) × S
  write_member output_path (ret content) s = env.write_file output_path content s
  write_member output_path (raise e) s = (raise e, s)

  unfoldable pub extract_member : Text → Member D → S → Outcome (Unit {0}) × S
  extract_member output_dir member s =
      let output_path = env.join_path output_dir member.name in
      elim member.kind [
        | directory ↦ env.makedirs output_path s
        | regular content ↦
            then_do (write_member output_path content) (env.makedirs (env.dirname output_path) s)
        | other_type type_ ↦
            (raise (failing (member.name ++ (codes " has unknown type " ++ type_))), s)
      ]

  unfoldable pub extract_members : Text → List (Member D) → S → Outcome (Unit {0}) × S
  unfolding extract_member
  extract_members output_dir [] s = (ret tt, s)
  extract_members output_dir (member ∷ members) s =
      then_do (extract_members output_dir members) (extract_member output_dir member s)

  unfoldable pub extract_opened : Text → Outcome (List (Member D)) → S → Outcome (Unit {0}) × S
  unfolding extract_members
  extract_opened output_dir (ret members) s = extract_members output_dir members s
  extract_opened output_dir (raise e) s = (raise e, s)

  unfoldable pub extract_tar : D → Text → S → Outcome (Unit {0}) × S
  unfolding extract_opened
  extract_tar tar_stream [] s = (raise (failing (codes "output_dir is empty")), s)
  extract_tar tar_stream (c ∷ output_dir) s =
      wrapped (codes "Failed to extract tar archive: ")
        (extract_opened (c ∷ output_dir) (env.open_tar tar_stream) s)

  unfoldable pub extract_archive_file : Text → Text → S → Outcome (Unit {0}) × S
  unfolding extract_tar
  extract_archive_file archive_path output_dir s =
      wrapped (codes "Failed to extract archive: ") (elim (env.open_gzip archive_path s) [
        | raise e ↦ (raise e, s)
        | ret gz_file ↦ extract_tar gz_file output_dir s
      ])

  -- The code after the checks of the arguments, in the state that it starts from.
  abbrev pub output_dir_missing : Exc
  output_dir_missing = failing (codes "Output directory is not specified")

  unfoldable pub extract_data : Text → Text → S → Outcome (Unit {0}) × S
  extract_data temp_dir output_dir s =
      let data_tar_gz_path = env.join_path temp_dir (codes "data.tar.gz") in
      if env.exists data_tar_gz_path s
      then env.extract_tar_gz_file data_tar_gz_path output_dir s
      else (raise (failing (codes "data.tar.gz not found in the .gem file")), s)

  unfoldable pub gem_steps : Text → Text → Text → S → Outcome (Unit {0}) × S
  unfolding extract_data
  gem_steps gem_path temp_dir output_dir s =
      then_do
        (λ s1.
          then_do (extract_data temp_dir output_dir) (env.extract_tar_file gem_path temp_dir s1))
        (env.makedirs temp_dir s)

  unfoldable pub remove_temp : Text → Outcome (Unit {0}) × S → Outcome (Unit {0}) × S
  remove_temp temp_dir (result, s) =
      if env.exists temp_dir s then after_all result (env.rmtree temp_dir s) else (result, s)

  abbrev pub temp_dir_in : Text → Text
  temp_dir_in output_dir = env.join_path output_dir (codes "temp_extraction")

  unfoldable pub extract_gem : Text → Text → S → Outcome (Unit {0}) × S
  unfolding gem_steps remove_temp
  extract_gem gem_path output_dir s =
      if env.exists gem_path s
      then if is_nonempty output_dir
        then remove_temp (temp_dir_in output_dir) (
            wrapped (codes "Failed to extract gem file: ")
              (gem_steps gem_path (temp_dir_in output_dir) output_dir s))
        else (raise output_dir_missing, s)
      else (raise (failing (codes "Gem file not found: " ++ gem_path)), s)

  -- The common part of `extract_packagist_file` and `extract_jar_file`.
  unfoldable pub extract_zip :
      (suffix missing failed path output_dir : Text) → S → Outcome (Unit {0}) × S
  extract_zip suffix missing failed path output_dir s =
      if env.ends_with suffix path
      then if env.exists path s
        then if is_nonempty output_dir
          then wrapped failed (env.extract_zip_file path output_dir s)
          else (raise output_dir_missing, s)
        else (raise (failing (missing ++ path)), s)
      else (
        raise (
            failing (
              codes "Invalid file format: "
              ++ (path ++ (codes " is not a " ++ (suffix ++ codes " file"))))),
        s,
      )

  unfoldable pub extract_packagist_file : Text → Text → S → Outcome (Unit {0}) × S
  unfolding extract_zip
  extract_packagist_file =
      extract_zip (codes ".zip") (codes "Archive file not found: ")
        (codes "Failed to extract Packagist file: ")

  unfoldable pub extract_jar_file : Text → Text → S → Outcome (Unit {0}) × S
  unfolding extract_zip
  extract_jar_file =
      extract_zip (codes ".jar") (codes "JAR file not found: ")
        (codes "Failed to extract JAR file: ")
