-- ===== src/Reports/Laws.antt =====
-- What is in a report: for each text the rules that YARA's matches attach to it.
use packamal.Reports.{
  Phases, Phase, get_value, empty_phase, execution_phase, phase_commands, phase_domains,
  phase_syscalls,
}
use packamal.Reports.Rules.{
  generate_report, Yara, ReportEntry, Rule, Report, extract, attach, named_in, entries, rule_of,
  without_rules, attach_all, attach_rules, analyse, Match, identifiers, all_files,
}
use packamal.Prelude.{
  none, true, false, List, Text, ◌++◌, ◌≡◌, map, ◌∷◌, ap, [], refl, Bool, Bool-cases, inl, Option,
  Option-cases, inr, some, join_lines, ◌⊎◌, sym, ◌∙◌, if◌then◌else◌, ◌&&◌, ℕ,
}
use mathlib.Core.List.{append-nil, append_assoc}

module _ (yara : Yara) where
  abbrev pub rule_if : Rule → List Text → Text → List Rule
  rule_if rule strings text = if named_in yara text strings then rule ∷ [] else []

  -- The rule, if there is one and one of the strings stands in the text, before the later ones.
  abbrev pub onto_rules : Text → List Text → List Rule → Option Rule → List Rule
  onto_rules text strings later none = []
  onto_rules text strings later (some rule) = rule_if rule strings text ++ later

  abbrev pub if_rule : Bool → Option Rule → Bool
  if_rule later none = false
  if_rule later (some rule) = later

  -- The rules of one text: of each match one of whose strings stands in it, up to the first match
  -- that has no description or no URL.
  abbrev pub rules_for : Text → List Match → Text → List Rule
  rules_for whole [] text = []
  rules_for whole (m ∷ ms) text =
      onto_rules text (identifiers m) (rules_for whole ms text) (rule_of yara whole m)

  -- Every match has a description and a URL.
  abbrev pub complete : Text → List Match → Bool
  complete whole [] = true
  complete whole (m ∷ ms) = if_rule (complete whole ms) (rule_of yara whole m)

  -- The texts in their order, each with its rules.
  abbrev pub annotated : List Text → List Match → List ReportEntry
  annotated texts ms =
      map (λ (t : Text). record { text = t; rules = rules_for (join_lines texts) ms t }) texts

  abbrev with_rules : (Text → List Rule) → List ReportEntry → List ReportEntry
  with_rules rules es = map (λ (e : ReportEntry). record e { rules = e.rules ++ rules e.text }) es

  attach_lem :
      (rule : Rule) (strings : List Text) (es : List ReportEntry)
      → attach yara rule strings es ≡ with_rules (rule_if rule strings) es
  unfolding attach
  attach_lem rule strings [] = refl
  attach_lem rule strings (e ∷ es) = elim (Bool-cases (named_in yara e.text strings)) [
    | inl k ↦
        rw (k, attach)
          (ap (λ r. record e { rules = e.rules ++ (rule ∷ []) } ∷ r) (attach_lem rule strings es))
    | inr k ↦
        rw (k, attach)
          (λ i. record e { rules = sym (append-nil e.rules) i } ∷ attach_lem rule strings es i)
  ]

  with_rules-twice :
      (f g : Text → List Rule) (es : List ReportEntry)
      → with_rules g (with_rules f es) ≡ with_rules (λ t. f t ++ g t) es
  with_rules-twice f g [] = refl
  with_rules-twice f g (e ∷ es) = λ i.
      record e { rules = append_assoc e.rules (f e.text) (g e.text) i } ∷ with_rules-twice f g es i

  with_rules-none : (es : List ReportEntry) → with_rules (λ t. []) es ≡ es
  with_rules-none [] = refl
  with_rules-none (e ∷ es) = λ i. record e { rules = append-nil e.rules i } ∷ with_rules-none es i

  attach_all_lem :
      (whole : Text) (ms : List Match) (es : List ReportEntry)
      → attach_all yara whole ms es ≡ (complete whole ms, with_rules (rules_for whole ms) es)
  unfolding attach_all
  attach_all_lem whole [] es = λ i. (true, sym (with_rules-none es) i)
  attach_all_lem whole (m ∷ ms) es = elim (Option-cases (rule_of yara whole m)) [
    | inl e ↦ rw (e, attach_all) (λ i. (false, sym (with_rules-none es) i))
    | inr (rule, e) ↦
        rw (e, attach_all)
          (attach_all_lem whole ms (attach yara rule (identifiers m) es) ∙ (λ i. (
            complete whole ms,
            (ap (with_rules (rules_for whole ms)) (attach_lem rule (identifiers m) es)
                  ∙ with_rules-twice (rule_if rule (identifiers m)) (rules_for whole ms) es)
                i,
          )))
  ]

  entries_lem :
      (rules : Text → List Rule) (texts : List Text)
      → with_rules rules (entries yara texts)
        ≡ map (λ (t : Text). record { text = t; rules = rules t }) texts
  entries_lem rules [] = refl
  entries_lem rules (t ∷ ts) =
      ap (λ r. record { text = t; rules = rules t } ∷ r) (entries_lem rules ts)

  attached :
      (texts : List Text) (ms : List Match)
      → attach_all yara (join_lines texts) ms (entries yara texts)
        ≡ (complete (join_lines texts) ms, annotated texts ms)
  attached texts ms =
      attach_all_lem (join_lines texts) ms (entries yara texts)
      ∙ ap (λ r. (complete (join_lines texts) ms, r))
          (entries_lem (rules_for (join_lines texts) ms) texts)

  module _ (commands domains syscalls : List Text) where
    -- The matches are attached to the commands, then to the domains and to the system calls, unless
    -- a match of the lists before lacks a description or a URL.
    abbrev pub annotated_report : List Match → List Match → List Match → Report
    annotated_report cs ds ss = record {
      commands = annotated commands cs;
      domains =
          if complete (join_lines commands) cs then annotated domains ds else entries yara domains;
      system_calls =
          if complete (join_lines commands) cs && complete (join_lines domains) ds
          then annotated syscalls ss
          else entries yara syscalls;
    }

    attach_rules_lem :
        (cs ds ss : List Match)
        → attach_rules yara commands domains syscalls cs ds ss ≡ annotated_report cs ds ss
    unfolding attach_rules
    attach_rules_lem cs ds ss =
        rw (attached commands cs, attached domains ds, attached syscalls ss) refl

    -- What `analyse` makes of the answers.
    pub data Analysed (files : Option (List Text)) (r : Report) : Type 0 where
      bare :
          ((yara.analyze_behavior (join_lines commands) ≡ none)
            ⊎ ((yara.analyze_behavior (join_lines domains) ≡ none)
                ⊎ ((yara.analyze_behavior (join_lines syscalls) ≡ none)
                    ⊎ ((files ≡ none)
                        ⊎ ((names : List Text) × (files ≡ some names)
                            × (yara.analyze_behavior (join_lines names) ≡ none))))))
          → r ≡ without_rules yara commands domains syscalls
          → Analysed files r
      with_matches :
          (cs ds ss : List Match)
          → yara.analyze_behavior (join_lines commands) ≡ some cs
          → yara.analyze_behavior (join_lines domains) ≡ some ds
          → yara.analyze_behavior (join_lines syscalls) ≡ some ss
          → r ≡ annotated_report cs ds ss
          → Analysed files r

    analyse-Analysed :
        (files : Option (List Text)) → Analysed files (analyse yara commands domains syscalls files)
    unfolding analyse
    analyse-Analysed files = elim (Option-cases (yara.analyze_behavior (join_lines commands))) [
      | inl e ↦ bare (inl e) (rw (e, analyse) refl)
      | inr (cs, e) ↦ elim (Option-cases (yara.analyze_behavior (join_lines domains))) [
        | inl k ↦ bare (inr (inl k)) (rw (e, analyse) (rw k refl))
        | inr (ds, k) ↦ elim (Option-cases (yara.analyze_behavior (join_lines syscalls))) [
          | inl l ↦ bare (inr (inr (inl l))) (rw (e, analyse) (rw k (rw l refl)))
          | inr (ss, l) ↦ elim (Option-cases files) [
            | inl f ↦ bare (inr (inr (inr (inl f)))) (rw (e, analyse) (rw k (rw l (rw f refl))))
            | inr (names, f) ↦ elim (Option-cases (yara.analyze_behavior (join_lines names))) [
              | inl g ↦
                  bare (inr (inr (inr (inr (names, f, g)))))
                    (rw (e, analyse) (rw k (rw l (rw f (rw g refl)))))
              | inr (fs, g) ↦
                  with_matches cs ds ss e k l
                    (rw (e, analyse) (rw k (rw l (rw f (rw g (attach_rules_lem cs ds ss))))))
            ]
          ]
        ]
      ]
    ]

-- The phases of the sandbox's JSON, and the texts of each.
pub record IsRead (is_space : ℕ → Bool) (json : Phases) (install execution : Phase)
    (di de si se : List Text) : Type 0 where
  pub installed : get_value empty_phase json.install ≡ some install
  pub executed : execution_phase json ≡ some execution
  pub install_domains : phase_domains install ≡ some di
  pub execution_domains : phase_domains execution ≡ some de
  pub install_syscalls : phase_syscalls is_space install ≡ some si
  pub execution_syscalls : phase_syscalls is_space execution ≡ some se

-- A phase that cannot be read.
abbrev pub IsUnreadable : (ℕ → Bool) → Option Phase → Type 0
IsUnreadable is_space none = Unit
IsUnreadable is_space (some p) = (phase_domains p ≡ none) ⊎ (phase_syscalls is_space p ≡ none)

pub generate_report_lem :
    (yara : Yara) (json : Phases)
    → ((generate_report yara json ≡ none)
        × (IsUnreadable yara.is_space (get_value empty_phase json.install)
            ⊎ IsUnreadable yara.is_space (execution_phase json)))
      ⊎ ((install : Phase) × (execution : Phase) × (di : List Text) × (de : List Text) × (si : List
            Text)
          × (se : List Text) × (r : Report) × IsRead yara.is_space json install execution di de si
              se
          × (generate_report yara json ≡ some r)
          × Analysed yara
              (phase_commands install ++ phase_commands execution)
              (di ++ de)
              (si ++ se)
              (all_files install execution)
              r)
unfolding generate_report extract phase_commands
generate_report_lem yara json = elim (Option-cases (get_value empty_phase json.install)) [
  | inl a ↦ inl (rw (a, generate_report) refl, inl (rw a tt))
  | inr (install, a) ↦ elim (Option-cases (execution_phase json)) [
    | inl b ↦ inl (rw (a, generate_report) (rw (b, generate_report) refl), inr (rw b tt))
    | inr (execution, b) ↦ elim (Option-cases (phase_domains install)) [
      | inl c ↦
          inl (rw (a, generate_report) (rw (b, generate_report) (rw c refl)), inl (rw a (inl c)))
      | inr (di, c) ↦ elim (Option-cases (phase_domains execution)) [
        | inl d ↦ inl (
          rw (a, generate_report) (rw (b, generate_report) (rw c (rw d refl))),
          inr (rw b (inl d)),
        )
        | inr (de, d) ↦ elim (Option-cases (phase_syscalls yara.is_space install)) [
          | inl e ↦ inl (
            rw (a, generate_report) (rw (b, generate_report) (rw c (rw d (rw e refl)))),
            inl (rw a (inr e)),
          )
          | inr (si, e) ↦ elim (Option-cases (phase_syscalls yara.is_space execution)) [
            | inl f ↦ inl (
              rw (a, generate_report) (rw (b, generate_report) (rw c (rw d (rw e (rw f refl))))),
              inr (rw b (inr f)),
            )
            | inr (se, f) ↦ inr (
              install,
              execution,
              di,
              de,
              si,
              se,
              _,
              record {
                installed = a;
                executed = b;
                install_domains = c;
                execution_domains = d;
                install_syscalls = e;
                execution_syscalls = f;
              },
              rw (a, generate_report) (rw (b, generate_report) (rw c (rw d (rw e (rw f refl))))),
              analyse-Analysed yara (phase_commands install ++ phase_commands execution) (di ++ de)
                  (si ++ se) (all_files install execution),
            )
          ]
        ]
      ]
    ]
  ]
]
