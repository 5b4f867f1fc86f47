-- ===== src/Malcontent.antt =====
-- backend/package_analysis/src/yara/report/report.py: the helpers that rate and shorten YARA matches.
-- `str.lower`, `str.strip` and `str.replace` are parameters.
pub mod Unique
pub mod Longest
pub mod Risk
pub mod Overrides
use packamal.Prelude.{
  ℕ, List, Text, if◌then◌else◌, select, codes, ◌∷◌, Option, Bool, is_nonempty, [], none, ◌++◌, leb,
  any_of, not, occurs, map, ◌||◌, strip_prefix, some, text_eq, ltb, length, split, ◌==◌,
}

-- The values of `Levels`, from -1 to 4.
pub data Level : Type 0 where
  ignored harmless low medium high critical : Level

pub record Strings : Type 0 where
  pub lower : Text → Text
  pub strip : Text → Text
  -- `text.replace(part, "")`
  pub remove : (part text : Text) → Text

-- `Levels`
abbrev pub levels : List (Text × Level)
levels =
    (codes "ignore", ignored)
    ∷ (codes "none", ignored)
    ∷ (codes "harmless", harmless)
    ∷ (codes "low", low)
    ∷ (codes "notable", medium)
    ∷ (codes "medium", medium)
    ∷ (codes "suspicious", high)
    ∷ (codes "weird", high)
    ∷ (codes "high", high)
    ∷ (codes "crit", critical)
    ∷ (codes "critical", critical)
    ∷ []

abbrev pub level_in : List (Text × Level) → Text → Option Level
level_in [] tag = none
level_in ((name, level) ∷ rest) tag =
    let later = level_in rest tag in if text_eq name tag then some level else later

abbrev pub third_party : Text → Bool
third_party src = occurs (codes "yara/") src

abbrev pub ignore_match : List Text → (Text → Bool) → Bool
ignore_match tags ignore_tags = any_of ignore_tags tags

-- `ns.split("/")[1] if "/" in ns else ns`
abbrev pub second_part : Text → List Text → Text
second_part ns (first ∷ (second ∷ rest)) = second
second_part ns _ = ns

abbrev pub trusted : List Text
trusted =
    codes "JPCERT" ∷ codes "YARAForge" ∷ codes "bartblaze" ∷ codes "huntress" ∷ codes "elastic" ∷ []

-- `for tag in tags: if tag in Levels: return Levels[tag]`
abbrev pub first_level : List Text → Level → Level
first_level [] risk = risk
first_level (tag ∷ tags) risk =
    let later = first_level tags risk in
    elim (level_in levels tag) [ none ↦ later | some level ↦ level ]

module _ (str : Strings) where
  abbrev pub mentions : Text → Text → Text → Bool
  mentions word ns rule = occurs word (str.lower ns) || occurs word (str.lower rule)

  -- The risk of a rule of a third party.
  abbrev pub third_party_risk : Text → Text → Level
  third_party_risk ns rule =
      if mentions (codes "keyword") ns rule
      then medium
      else if any_of (text_eq (second_part ns (split b'/' ns))) trusted
      then (if mentions (codes "generic") ns rule then high else critical)
      else high

  unfoldable pub behavior_risk : Text → Text → List Text → Level
  behavior_risk ns rule tags = first_level tags (
      if occurs (codes "combo/") ns
      then medium
      else if third_party ns
      then third_party_risk ns rule
      else low)

  -- `any(c < 32 or c > 126 for c in m.encode())`: the bytes of other characters are above 127.
  abbrev pub contains_unprintable : Text → Bool
  contains_unprintable m = any_of (λ c. ltb c 32 || ltb 126 c) m

  unfoldable pub match_to_string : Text → Text → Text
  match_to_string rule_name m =
      if contains_unprintable m
      then rule_name
      else if occurs (codes "base64") rule_name || occurs (codes "xor") rule_name
      then rule_name ++ (codes "::" ++ m)
      else if occurs (codes "xml_key_val") rule_name
      then str.strip (str.remove (codes "</key>") (str.remove (codes "<key>") m))
      else str.strip m

-- `safe.sort(key=len, reverse=True)`: the longest first, those of a length in their order.
unfoldable pub insert_by_length : Text → List Text → List Text
insert_by_length t [] = t ∷ []
insert_by_length t (s ∷ ss) =
    let later = insert_by_length t ss in
    if leb (length s) (length t) then t ∷ (s ∷ ss) else s ∷ later

unfoldable pub by_length : List Text → List Text
unfolding insert_by_length
by_length [] = []
by_length (t ∷ ts) = insert_by_length t (by_length ts)

-- `not s or s in seen`, or a part of one that was picked; `seen` holds what was picked.
abbrev pub is_skipped : Text → List Text → Bool
is_skipped s longest =
    (not (is_nonempty s) || any_of (text_eq s) longest) || any_of (occurs s) longest

unfoldable pub pick : List Text → List Text → List Text
pick [] longest = longest
pick (s ∷ rest) longest =
    let skipped = pick rest longest in
    let picked = pick rest (longest ++ (s ∷ [])) in if is_skipped s longest then skipped else picked

unfoldable pub longest_unique : List Text → List Text
unfolding by_length pick
longest_unique raw = if leb (length raw) 1 then raw else pick (by_length raw) []

unfoldable pub match_strings : Strings → Text → List Text → List Text
unfolding match_to_string longest_unique
match_strings str rule_name ms =
    longest_unique (select is_nonempty (map (match_to_string str rule_name) ms))

-- `s.lstrip(chars)` for characters given by a test
abbrev pub lstrip : (ℕ → Bool) → Text → Text
lstrip chars [] = []
lstrip chars (c ∷ s) = let rest = lstrip chars s in if chars c then rest else c ∷ s

unfoldable pub trim_prefixes : Text → List Text → Text
trim_prefixes path [] = path
trim_prefixes path (prefix ∷ prefixes) =
    let later = trim_prefixes path prefixes in
    if is_nonempty prefix
    then elim (strip_prefix (lstrip (λ c. (c == b'.') || (c == b'/')) prefix) path) [
      | none ↦ later
      | some trimmed ↦ lstrip (λ c. c == b'/') trimmed
    ]
    else later
