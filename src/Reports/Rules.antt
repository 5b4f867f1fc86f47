-- ===== src/Reports/Rules.antt =====
-- The rules that `generate_report` attaches: `extract_evidence`, `generate_rule_url` and the loops
-- over the matches. The YARA manager is a parameter.
use packamal.Prelude.{
  List, Text, ◌∷◌, Option, map, Bool, join_lines, ℕ, take, true, [], any_of, none, some,
  if◌then◌else◌, split, ◌++◌, leb, occurs, false, codes, ◌&&◌, drop, ◌||◌,
}
use packamal.Reports.{
  phase_domains, Phase, Files, phase_commands, absent, Phases, get_value, phase_syscalls, get_or,
  execution_phase, empty_phase, both,
}

-- `str(s)`, and the offset and the length of each instance.
pub record StringMatch : Type 0 where
  pub identifier : Text
  pub instances : List (ℕ × ℕ)

pub record Match : Type 0 where
  pub rule : Text
  -- `meta["description"]`, if there is one
  pub description : Option Text
  pub namespace : Text
  pub strings : List StringMatch

pub record Rule : Type 0 where
  pub name : Text
  pub description : Text
  pub severity : Text
  pub strings : List Text
  pub evidence : List Text
  pub url : Text

pub record ReportEntry : Type 0 where
  pub text : Text
  pub rules : List Rule

pub record Report : Type 0 where
  pub commands : List ReportEntry
  pub domains : List ReportEntry
  pub system_calls : List ReportEntry

pub record Yara : Type 0 where
  -- `analyze_behavior`; none: an exception
  pub analyze_behavior : Text → Option (List Match)
  -- `list(set(evidences))`
  pub distinct : List Text → List Text
  -- `settings.YARA_RULES_REPO_URL` or the default
  pub base_url : Text
  pub is_space : ℕ → Bool

-- `string.printable`
abbrev pub is_printable : Text → Bool
is_printable [] = true
is_printable (c ∷ s) = ((leb 9 c && leb c 13) || (leb 32 c && leb c 126)) && is_printable s

-- `data[offset : offset + matched_length]`, if it is printable.
abbrev pub evidence_of : Text → List (ℕ × ℕ) → List Text
evidence_of text [] = []
evidence_of text ((offset, matched_length) ∷ rest) =
    let evidence = take matched_length (drop offset text) in
    let more = evidence_of text rest in if is_printable evidence then evidence ∷ more else more

abbrev pub evidences : Text → List StringMatch → List Text
evidences text [] = []
evidences text (s ∷ ss) = evidence_of text (take 5 s.instances) ++ evidences text ss

-- f"{base_url}/{folder_name}/{file_name}.yar"
abbrev pub rule_url : Text → List Text → Option Text
rule_url base_url (folder_name ∷ (file_name ∷ rest)) =
    some (base_url ++ (codes "/" ++ (folder_name ++ (codes "/" ++ (file_name ++ codes ".yar")))))
rule_url base_url _ = none

-- The name of the rule is not used.
unfoldable pub generate_rule_url : Text → Text → Option Text
generate_rule_url base_url src = rule_url base_url (split b'@' src)

abbrev pub identifiers : Match → List Text
identifiers m = map (λ (s : StringMatch). s.identifier) m.strings

module _ (yara : Yara) where
  unfoldable pub extract_evidence : Match → Text → List Text
  extract_evidence m text = yara.distinct (evidences text m.strings)

  -- A missing description and a namespace without "@" raise.
  unfoldable pub rule_of : Text → Match → Option Rule
  unfolding extract_evidence generate_rule_url
  rule_of text m = elim m.description [
    | none ↦ none
    | some description ↦ elim (generate_rule_url yara.base_url m.namespace) [
      | none ↦ none
      | some url ↦ some (record {
        name = m.rule;
        description = description;
        severity = codes "high";
        strings = identifiers m;
        evidence = extract_evidence m text;
        url = url;
      })
    ]
  ]

  -- `any(str(s) in entry for s in match.strings)`
  abbrev pub named_in : Text → List Text → Bool
  named_in text strings = any_of (λ s. occurs s text) strings

  unfoldable pub attach : Rule → List Text → List ReportEntry → List ReportEntry
  attach rule strings [] = []
  attach rule strings (e ∷ es) =
      let rest = attach rule strings es in
      (if named_in e.text strings then record e { rules = e.rules ++ (rule ∷ []) } else e) ∷ rest

  -- The loop over the matches; the first exception ends it, with what was attached before.
  unfoldable pub attach_all : Text → List Match → List ReportEntry → Bool × List ReportEntry
  unfolding attach rule_of
  attach_all text [] es = (true, es)
  attach_all text (m ∷ ms) es = elim (rule_of text m) [
    | none ↦ (false, es)
    | some rule ↦ attach_all text ms (attach rule (identifiers m) es)
  ]

  abbrev pub entries : List Text → List ReportEntry
  entries texts = map (λ t. record { text = t; rules = [] }) texts

  -- The loops over the three lists of matches.
  unfoldable pub attach_rules :
      (commands domains syscalls : List Text) → List Match → List Match → List Match → Report
  unfolding attach_all
  attach_rules commands domains syscalls command_matches network_matches syscall_matches =
      let c = attach_all (join_lines commands) command_matches (entries commands) in
      let d = attach_all (join_lines domains) network_matches (entries domains) in
      let s = attach_all (join_lines syscalls) syscall_matches (entries syscalls) in
      record {
        commands = c.1;
        domains = if c.0 then d.1 else entries domains;
        system_calls = if c.0 && d.0 then s.1 else entries syscalls;
      }

  -- What `generate_report` returns if an exception came before the loops.
  abbrev pub without_rules : List Text → List Text → List Text → Report
  without_rules commands domains syscalls = record {
    commands = entries commands;
    domains = entries domains;
    system_calls = entries syscalls;
  }

  -- `analyze_behavior` of the three texts and of the names of the files; an exception of any ends it.
  unfoldable pub analyse : (commands domains syscalls : List Text) → Option (List Text) → Report
  unfolding attach_rules
  analyse commands domains syscalls files = elim (yara.analyze_behavior (join_lines commands)) [
    | none ↦ without_rules commands domains syscalls
    | some cs ↦ elim (yara.analyze_behavior (join_lines domains)) [
      | none ↦ without_rules commands domains syscalls
      | some ds ↦ elim (yara.analyze_behavior (join_lines syscalls)) [
        | none ↦ without_rules commands domains syscalls
        | some ss ↦ elim files [
          | none ↦ without_rules commands domains syscalls
          | some names ↦ elim (yara.analyze_behavior (join_lines names)) [
            | none ↦ without_rules commands domains syscalls
            | some fs ↦ attach_rules commands domains syscalls cs ds ss
          ]
        ]
      ]
    ]
  ]

-- "read", "write" and "delete" of a phase's "files".
abbrev pub no_files : Files
no_files = record { read = absent; write = absent; delete = absent }

abbrev pub all_files : Phase → Phase → Option (List Text)
all_files install execution = elim (get_value no_files install.files) [
  | none ↦ none
  | some i ↦ elim (get_value no_files execution.files) [
    | none ↦ none
    | some e ↦ some (
        get_or [] i.read
        ++ (get_or [] e.read
            ++ (get_or [] i.write
                ++ (get_or [] e.write ++ (get_or [] i.delete ++ get_or [] e.delete)))))
  ]
]

-- The three lists of texts, those of the installation first; none: an exception that is not caught.
pub record Extracted : Type 0 where
  pub install : Phase
  pub execution : Phase
  pub domains : List Text
  pub syscalls : List Text

abbrev pub joined : Phase → Phase → Option (List Text) → Option (List Text) → Option Extracted
joined install execution (some ds) (some ss) =
    some (record { install = install; execution = execution; domains = ds; syscalls = ss })
joined install execution _ _ = none

unfoldable pub extract : (ℕ → Bool) → Phases → Option Extracted
unfolding phase_domains phase_syscalls execution_phase
extract is_space json = elim (get_value empty_phase json.install) [
  | none ↦ none
  | some install ↦ elim (execution_phase json) [
    | none ↦ none
    | some execution ↦
        joined install execution (both (phase_domains install) (phase_domains execution))
          (both (phase_syscalls is_space install) (phase_syscalls is_space execution))
  ]
]

abbrev pub commands_of : Extracted → List Text
commands_of x = phase_commands x.install ++ phase_commands x.execution

unfoldable pub generate_report : Yara → Phases → Option Report
unfolding extract analyse phase_commands
generate_report yara json = elim (extract yara.is_space json) [
  | none ↦ none
  | some x ↦
      some (analyse yara (commands_of x) x.domains x.syscalls (all_files x.install x.execution))
]
