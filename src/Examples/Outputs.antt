-- ===== src/Examples/Outputs.antt =====
-- Outputs of docker, of the sandbox and of YARA.
use packamal.Prelude.{
  split, true, false, none, [], codes, some, ℕ, Text, ◌≡◌, ◌⊎◌, Bool, ◌∷◌, refl, ◌==◌, ◌++◌, arith,
  map, length, List,
}
use packamal.Containers.{
  Shell, Container, output, extract_container_id, hex_run, cleanup_stopped_containers,
}
use packamal.Containers.Ids.{IsIdIn, extract_container_id_lem}
use packamal.Containers.Listing.{line_of}
use packamal.Reports.Rules.{
  Yara, generate_report, extract, Report, all_files, analyse, attach_rules, attach_all, attach,
  rule_of, generate_rule_url, ReportEntry,
}
use packamal.Reports.Laws.{generate_report_lem, IsUnreadable, IsRead, Analysed}
use packamal.Reports.{
  Phase, Phases, absent, value, null, words, get_value, empty_phase, execution_phase,
  phase_commands,
}

abbrev is_blank : ℕ → Bool
is_blank c = c == 32

abbrev full_id : Text
full_id = codes "container_id=0123456789abcdef0123456789abcdef0123456789abcdef0123456789abcdef"

extract_container_id_example :
    ((t : Text) × (extract_container_id is_blank full_id ≡ some t) × IsIdIn full_id t)
    ⊎ ((extract_container_id is_blank full_id ≡ none)
        × ((a b : Text) → full_id ≡ a ++ b → hex_run 12 b ≡ none))
extract_container_id_example = extract_container_id_lem is_blank full_id

abbrev web : Container
web = record { id = codes "0a"; image = codes "web"; status = codes "Up"; name = codes "w" }

abbrev pub shell : Shell
shell = record {
  run = λ command. output (line_of web);
  strip = λ t. t;
  is_space = is_blank;
  decimal = λ n. [];
  deleted_containers = λ t. some 3;
  loads = λ t. none;
}

-- The count that a comment of the program expects is not found.
prune_is_not_counted :
    cleanup_stopped_containers
      (record shell { run = λ command. output (codes "Deleted Containers: 3") })
    ≡ 0
unfolding cleanup_stopped_containers
prune_is_not_counted = refl

abbrev yara : Yara
yara = record {
  analyze_behavior = λ text. some (
      record {
        rule = codes "r";
        description = some (codes "d");
        namespace = codes "net@http";
        strings = record { identifier = codes "curl"; instances = (0, 4) ∷ [] } ∷ [];
      }
      ∷ []);
  distinct = λ ts. ts;
  base_url = codes "https://rules";
  is_space = is_blank;
}

abbrev installing : Phase
installing = record {
  has_keys = true;
  commands = value (some (value (words (codes "curl" ∷ codes "x" ∷ []))) ∷ none ∷ []);
  dns = null;
  syscalls = value (some (codes "Enter: open") ∷ []);
  files = absent;
}

abbrev sandbox : Phases
sandbox = record { install = value installing; execute_phase = absent; import_phase = absent }

generate_report_example :
    ((generate_report yara sandbox ≡ none)
      × (IsUnreadable is_blank (get_value empty_phase sandbox.install)
          ⊎ IsUnreadable is_blank (execution_phase sandbox)))
    ⊎ ((install : Phase) × (execution : Phase) × (di : List Text) × (de : List Text) × (si : List
          Text)
        × (se : List Text) × (r : Report) × IsRead is_blank sandbox install execution di de si se
        × (generate_report yara sandbox ≡ some r)
        × Analysed yara
            (phase_commands install ++ phase_commands execution)
            (di ++ de)
            (si ++ se)
            (all_files install execution)
            r)
generate_report_example = generate_report_lem yara sandbox

-- The rule is attached to the command that holds its string.
attached :
    (elim (generate_report yara sandbox) [
      | none ↦ []
      | some r ↦ map (λ (e : ReportEntry). length e.rules) r.commands
    ])
    ≡ 1 ∷ []
unfolding generate_report extract analyse attach_rules attach_all attach rule_of generate_rule_url
    packamal.Prelude.split
attached = refl
