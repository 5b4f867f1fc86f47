-- ===== src/Containers.antt =====
-- backend/package_analysis/container_manager.py: the commands that `ContainerManager` gives to
-- docker and what it reads from their output. `stop_container` stands in Tasks.Timeouts.
pub mod Ids
pub mod Listing
use packamal.Prelude.{
  Text, List, Option, ℕ, ◌∷◌, Bool, codes, if◌then◌else◌, strip_prefix, some, is_nonempty, ◌==◌,
  none, [], is_some, ◌++◌, leb, split, ◌&&◌, suc, false, true, zero, ◌||◌, skip_spaces, occurs,
}

-- How `subprocess.run(..., check=True)` ends: the output, `CalledProcessError`, or another
-- exception, with its text.
pub data Command : Type 0 where
  output : Text → Command
  called_process_error : Text → Command
  other_error : Text → Command

-- What `json.loads(stdout)[0]` holds for a container.
pub record ContainerInfo : Type 0 where
  pub id : Text
  pub name : Text
  pub image : Text
  pub status : Text
  pub started_at : Text
  pub finished_at : Text
  pub exit_code : Text
  pub is_running : Bool
  pub paused : Bool
  pub restarting : Bool

pub record Shell : Type 0 where
  pub run : List Text → Command
  pub strip : Text → Text
  -- whitespace of a regular expression
  pub is_space : ℕ → Bool
  -- `str(n)`
  pub decimal : ℕ → Text
  -- `re.search(r'Deleted Containers: (\d+)', output)` as a number
  pub deleted_containers : Text → Option ℕ
  -- `json.loads(...)[0]` with the keys that are read; none: an exception
  pub loads : Text → Option ContainerInfo

pub record Container : Type 0 where
  pub id : Text
  pub image : Text
  pub status : Text
  pub name : Text

-- `text.lstrip('/')`
abbrev pub lstrip_slash : Text → Text
lstrip_slash [] = []
lstrip_slash (c ∷ s) = let rest = lstrip_slash s in if c == b'/' then rest else c ∷ s

-- `if len(parts) >= 4`
abbrev pub container_of_parts : List Text → Option Container
container_of_parts (i ∷ (image ∷ (status ∷ (name ∷ more)))) =
    some (record { id = i; image = image; status = status; name = name })
container_of_parts _ = none

abbrev pub onto : Option Container → List Container → List Container
onto none cs = cs
onto (some c) cs = c ∷ cs

abbrev pub ps_command : List Text
ps_command =
    codes "docker"
    ∷ codes "ps"
    ∷ codes "--format"
    ∷ (codes "{{.ID}}"
        ++ (9 ∷ (codes "{{.Image}}" ++ (9 ∷ (codes "{{.Status}}" ++ (9 ∷ codes "{{.Names}}"))))))
    ∷ []

module _ (shell : Shell) where
  -- The loop over the lines; 9 is the tab.
  unfoldable pub containers_of : List Text → List Container
  containers_of [] = []
  containers_of (line ∷ lines) =
      let rest = containers_of lines in
      if is_nonempty (shell.strip line) then onto (container_of_parts (split 9 line)) rest else rest

  unfoldable pub get_running_containers : List Container
  unfolding containers_of
  get_running_containers = elim (shell.run ps_command) [
    | output stdout ↦ containers_of (split 10 (shell.strip stdout))
    | called_process_error e ↦ []
    | other_error e ↦ []
  ]

  unfoldable pub remove_container : Text → Bool → Bool
  remove_container container_id force =
      elim (shell.run (
        codes "docker"
        ∷ codes "rm"
        ∷ (if force then codes "-f" ∷ (container_id ∷ []) else container_id ∷ []))) [
          | output stdout ↦ true
          | called_process_error e ↦ false
          | other_error e ↦ false
        ]

  unfoldable pub get_container_info : Text → Option ContainerInfo
  get_container_info container_id =
      elim (shell.run (codes "docker" ∷ codes "inspect" ∷ container_id ∷ [])) [
        | output stdout ↦ elim (shell.loads stdout) [
          | none ↦ none
          | some info ↦ some (record info { name = lstrip_slash info.name })
        ]
        | called_process_error e ↦ none
        | other_error e ↦ none
      ]

  unfoldable pub is_container_running : Text → Bool
  unfolding get_container_info
  is_container_running container_id = elim (get_container_info container_id) [
    | none ↦ false
    | some info ↦ info.is_running
  ]

  -- The count that the output is read as.
  abbrev pub pruned_count : Text → ℕ
  pruned_count stdout =
      if occurs (codes "deleted") stdout
      then elim (shell.deleted_containers stdout) [ none ↦ 0 | some count ↦ count ]
      else 0

  unfoldable pub cleanup_stopped_containers : ℕ
  cleanup_stopped_containers =
      elim (shell.run (codes "docker" ∷ codes "container" ∷ codes "prune" ∷ codes "-f" ∷ [])) [
        | output stdout ↦ pruned_count stdout
        | called_process_error e ↦ 0
        | other_error e ↦ 0
      ]

  unfoldable pub get_container_logs : Text → ℕ → Text
  get_container_logs container_id tail =
      elim (shell.run
        (codes "docker" ∷ codes "logs" ∷ codes "--tail" ∷ shell.decimal tail ∷ container_id ∷ [])) [
          | output stdout ↦ stdout
          | called_process_error e ↦ codes "Error retrieving logs: " ++ e
          | other_error e ↦ codes "Error retrieving logs: " ++ e
        ]

-- `[a-f0-9]`
abbrev pub is_hex : ℕ → Bool
is_hex c = (leb b'a' c && leb c b'f') || (leb b'0' c && leb c b'9')

-- `([a-f0-9]{n})` at the start of the text.
abbrev pub hex_run : ℕ → Text → Option Text
hex_run zero s = some []
hex_run (suc n) [] = none
hex_run (suc n) (c ∷ s) =
    let rest = hex_run n s in
    if is_hex c then elim rest [ none ↦ none | some r ↦ some (c ∷ r) ] else none

-- The pattern `prefix([a-f0-9]{n})` at the start of the text.
abbrev pub after_prefix : Text → ℕ → Text → Option Text
after_prefix prefix n s = elim (strip_prefix prefix s) [ none ↦ none | some rest ↦ hex_run n rest ]

-- `re.search`: the first place where the pattern matches.
unfoldable pub search : (Text → Option Text) → Text → Option Text
search pattern_at [] = pattern_at []
search pattern_at (c ∷ s) =
    let later = search pattern_at s in
    elim (pattern_at (c ∷ s)) [ none ↦ later | some found ↦ some found ]

-- `--name\s+([a-f0-9]{12})`; no hexadecimal digit is a space.
abbrev pub after_spaces : (ℕ → Bool) → Text → Option Text
after_spaces is_space [] = none
after_spaces is_space (c ∷ s) = if is_space c then hex_run 12 (skip_spaces is_space s) else none

abbrev pub after_name : (ℕ → Bool) → Text → Option Text
after_name is_space s = elim (strip_prefix (codes "--name") s) [
  | none ↦ none
  | some rest ↦ after_spaces is_space rest
]

-- `for pattern in patterns: ... return match.group(1)`
abbrev pub or_else : Option Text → Option Text → Option Text
or_else none next = next
or_else (some found) next = some found

unfoldable pub extract_container_id : (ℕ → Bool) → Text → Option Text
unfolding search
extract_container_id is_space command =
    or_else (search (after_prefix (codes "container_id=") 12) command) (
      or_else (search (after_prefix (codes "container_id=") 64) command)
        (or_else (search (after_name is_space) command) (search (hex_run 12) command)))
