-- ===== src/Reports.antt =====
-- backend/package_analysis/report_generator.py: `Report.generate_report`. The JSON of the sandbox is
-- a record with the keys that are read; `none` is an exception.
pub mod Rules
pub mod Laws
use packamal.Prelude.{
  Text, ℕ, false, Bool, Option, List, strip_prefix, [], some, true, ◌∷◌, truthy, ◌++◌, none,
  if◌then◌else◌, codes, ◌==◌, skip_spaces,
}

-- A key of a JSON object: it may lack, or be null.
pub data Field {ℓ} (A : Type ℓ) : Type ℓ where
  absent null : Field A
  value : A → Field A

-- "Command": a text, or a list of texts.
pub data CommandLine : Type 0 where
  one : Text → CommandLine
  words : List Text → CommandLine

pub record Files : Type 0 where
  pub read : Field (List Text)
  pub write : Field (List Text)
  pub delete : Field (List Text)

-- The elements of "Commands" and "DNS" are objects or null, those of "Syscalls" texts or null; a
-- query is given by its "Hostname".
pub record Phase : Type 0 where
  -- whether the object has a key at all
  pub has_keys : Bool
  pub commands : Field (List (Option (Field CommandLine)))
  pub dns : Field (List (Option (Field (List (Field Text)))))
  pub syscalls : Field (List (Option Text))
  pub files : Field Files

pub record Phases : Type 0 where
  pub install : Field Phase
  pub execute_phase : Field Phase
  pub import_phase : Field Phase

abbrev pub empty_phase : Phase
empty_phase = record {
  has_keys = false;
  commands = absent;
  dns = absent;
  syscalls = absent;
  files = absent;
}

-- `d.get(key, default)`, of which an attribute is read, or over which a loop runs.
abbrev pub get_value {ℓ} : {A : Type ℓ} → A → Field A → Option A
get_value default absent = some default
get_value default null = none
get_value default (value a) = some a

-- `d.get(key, []) or []`
abbrev pub get_or {ℓ} : {A : Type ℓ} → A → Field A → A
get_or default (value a) = a
get_or default _ = default

-- `" ".join(words)`
abbrev pub join_words : List Text → Text
join_words [] = []
join_words (w ∷ []) = w
join_words (w ∷ (v ∷ rest)) = w ++ (32 ∷ join_words (v ∷ rest))

-- `if cmd:` and the join; an empty list is falsy.
abbrev pub command_text : Field CommandLine → Option Text
command_text (value (one text)) = truthy (some text)
command_text (value (words [])) = none
command_text (value (words (w ∷ ws))) = some (join_words (w ∷ ws))
command_text _ = none

abbrev pub onto_texts : Option Text → List Text → List Text
onto_texts none ts = ts
onto_texts (some t) ts = t ∷ ts

abbrev pub commands_in : List (Option (Field CommandLine)) → List Text
commands_in [] = []
commands_in (none ∷ cs) = commands_in cs
commands_in (some c ∷ cs) = onto_texts (command_text c) (commands_in cs)

abbrev pub hostname : Field Text → Option Text
hostname (value name) = truthy (some name)
hostname _ = none

abbrev pub hostnames : List (Field Text) → List Text
hostnames [] = []
hostnames (q ∷ qs) = onto_texts (hostname q) (hostnames qs)

abbrev pub both : Option (List Text) → Option (List Text) → Option (List Text)
both none ys = none
both (some xs) none = none
both (some xs) (some ys) = some (xs ++ ys)

-- `dns.get("Queries", [])`: a loop over null raises.
abbrev pub domains_in : List (Option (Field (List (Field Text)))) → Option (List Text)
domains_in [] = some []
domains_in (none ∷ ds) = domains_in ds
domains_in (some queries ∷ ds) =
    let rest = domains_in ds in
    elim (get_value [] queries) [ none ↦ none | some qs ↦ both (some (hostnames qs)) rest ]

-- `.*`: the rest of the line.
abbrev pub rest_of_line : Text → Text
rest_of_line [] = []
rest_of_line (c ∷ s) = let rest = rest_of_line s in if c == 10 then [] else c ∷ rest

-- `re.compile(r"^Enter:\s*(.*)").match(syscall)`
abbrev pub enter : (ℕ → Bool) → Text → Option Text
enter is_space syscall = elim (strip_prefix (codes "Enter:") syscall) [
  | none ↦ none
  | some rest ↦ some (rest_of_line (skip_spaces is_space rest))
]

abbrev pub syscalls_in : (ℕ → Bool) → List (Option Text) → List Text
syscalls_in is_space [] = []
syscalls_in is_space (none ∷ ss) = syscalls_in is_space ss
syscalls_in is_space (some s ∷ ss) = onto_texts (enter is_space s) (syscalls_in is_space ss)

-- What the loops over one phase add.
unfoldable pub phase_commands : Phase → List Text
phase_commands p = commands_in (get_or [] p.commands)

unfoldable pub phase_domains : Phase → Option (List Text)
phase_domains p = domains_in (get_or [] p.dns)

unfoldable pub phase_syscalls : (ℕ → Bool) → Phase → Option (List Text)
phase_syscalls is_space p = elim (get_value [] p.syscalls) [
  | none ↦ none
  | some ss ↦ some (syscalls_in is_space ss)
]

-- `execution_phase`: "execute", or "import" if it is empty or null.
unfoldable pub execution_phase : Phases → Option Phase
execution_phase a = elim (get_or empty_phase a.execute_phase).has_keys [
  | true ↦ some (get_or empty_phase a.execute_phase)
  | false ↦ get_value empty_phase a.import_phase
]
