-- ===== src/Examples/Matches.antt =====
-- Matches of YARA rules.
use packamal.Prelude.{All, List, codes, ◌≡◌, ◌∷◌, Text, [], arith, refl}
use packamal.Malcontent.{longest_unique, pick, by_length, trim_prefixes, insert_by_length}
use packamal.Malcontent.Unique.{IsCovered}
use packamal.Malcontent.Longest.{longest_unique_lem, IsDescending, AreApart}

abbrev found : List Text
found = codes "curl" ∷ codes "curl http" ∷ codes "rm" ∷ codes "http" ∷ []

longest_unique_example :
    IsDescending (longest_unique found)
    × AreApart (longest_unique found)
    × All (IsCovered (longest_unique found)) found
    × ((P : Text → Type 0) → All P found → All P (longest_unique found))
longest_unique_example = longest_unique_lem found (omega arith)

shortened : longest_unique found ≡ codes "curl http" ∷ codes "rm" ∷ []
unfolding longest_unique pick by_length insert_by_length
shortened = refl

-- A prefix loses its slash, so that no absolute path starts with it.
absolute_is_kept : trim_prefixes (codes "/tmp/a") (codes "/tmp" ∷ []) ≡ codes "/tmp/a"
unfolding trim_prefixes
absolute_is_kept = refl
