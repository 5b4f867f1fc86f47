-- ===== src/Examples/Purls.antt =====
-- Purls that are parsed.
use packamal.Purl.Print.{IsPlain, IsQuoting, print_purl, parse-print}
use packamal.Purl.Extract.{validate-extract}
use packamal.Purl.{
  parse_purl, extract_package_info, Ecosystem, validate_purl_format, ok, maven,
  get_ecosystem_from_purl, PurlError, value_error,
}
use packamal.Prelude.{
  Text, codes, ◌≡◌, true, arith, some, ◌⊎◌, false, none, [], ◌∷◌, ◌+◌, ◌-◌, refl, All,
}

abbrev as_is : Text → Text
as_is s = s

-- A quoting: each character is moved past the separators, and back.
abbrev shift : Text → Text
shift [] = []
shift (c ∷ s) = (c + 65) ∷ shift s

abbrev shift_back : Text → Text
shift_back [] = []
shift_back (c ∷ s) = (c - 65) ∷ shift_back s

shift_back-shift : (t : Text) → shift_back (shift t) ≡ t
shift_back-shift [] = refl
shift_back-shift (c ∷ t) = ground (arith, shift_back-shift t)

shift-IsPlain : (t : Text) → All IsPlain (shift t)
shift-IsPlain [] = tt
shift-IsPlain (c ∷ t) =
    ((omega arith, omega arith, omega arith, omega arith, omega arith), shift-IsPlain t)

shift-IsQuoting : IsQuoting shift shift_back
shift-IsQuoting = record { unquotes = shift_back-shift; plain = shift-IsPlain }

abbrev scoped : Text
scoped =
    print_purl shift maven (some (codes "org.a")) (codes "b/c") (some (codes "1@2"))
      ((codes "type", codes "jar&x") ∷ (codes "os", []) ∷ [])

parse-print_example :
    parse_purl shift_back scoped
    ≡ ok (record {
      ecosystem = maven;
      namespace = none;
      name = some (codes "org.a:b/c");
      version = some (codes "1@2");
      qualifiers = (codes "type", codes "jar&x") ∷ (codes "os", []) ∷ [];
      original_purl = scoped;
    })
parse-print_example =
    parse-print shift shift_back shift-IsQuoting maven (some (codes "org.a")) (codes "b/c")
      (some (codes "1@2")) ((codes "type", codes "jar&x") ∷ (codes "os", []) ∷ []) refl refl refl
      (((λ e. absurd (cc)), tt), (tt, tt))

validate-extract_example :
    ((info : Text × Text × Ecosystem) × (validate_purl_format as_is (codes "pkg:gem/rails") ≡ true)
      × (extract_package_info as_is (codes "pkg:gem/rails") ≡ ok info)
      × (get_ecosystem_from_purl (codes "pkg:gem/rails") ≡ some info.2))
    ⊎ ((e : PurlError) × (validate_purl_format as_is (codes "pkg:gem/rails") ≡ false)
        × (extract_package_info as_is (codes "pkg:gem/rails") ≡ value_error e))
validate-extract_example = validate-extract as_is (codes "pkg:gem/rails")
