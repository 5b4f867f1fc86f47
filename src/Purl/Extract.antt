-- ===== src/Purl/Extract.antt =====
-- What the entry points of utils.py say of one purl, and which packages they confuse.
use mathlib.Core.Option
use packamal.Purl.Trip.{IsClean, purl_text, parse-purl_text}
use packamal.Prelude.{
  Text, ◌≡◌, refl, some, Option-cases, strip_prefix, codes, inl, arith, inr, split_once, Option,
  ◌⊎◌, true, false, ◌∙◌, ap, none, sym, [], ◌∷◌,
}
use packamal.Purl.{
  Ecosystem, parse_rest, get_ecosystem_from_purl, build, Purl, parse_purl, ok, supported,
  validate_purl_format, extract_package_info, Parsed, info_of, PurlError, value_error, packagist,
  get_or_empty,
}

parse_rest-ecosystem :
    (unquote : Text → Text) (purl : Text) (e : Ecosystem) (rest : Text)
    → (parse_rest unquote purl e rest).ecosystem ≡ e
unfolding parse_rest build
parse_rest-ecosystem unquote purl e rest = refl

info-ecosystem : (p : Purl) → (info_of p).2 ≡ p.ecosystem
unfolding info_of
info-ecosystem p = refl

Parsed-cases :
    {A : Type 0} (r : Parsed A) → ((a : A) × (r ≡ ok a)) ⊎ ((e : PurlError) × (r ≡ value_error e))
Parsed-cases (ok a) = inl (a, refl)
Parsed-cases (value_error e) = inr (e, refl)

module _ (unquote : Text → Text) where
  parsed_ecosystem :
      (purl : Text) (p : Purl)
      → parse_purl unquote purl ≡ ok p
      → get_ecosystem_from_purl purl ≡ some p.ecosystem
  unfolding parse_purl get_ecosystem_from_purl
  parsed_ecosystem purl p h = elim (Option-cases (strip_prefix (codes "pkg:") purl)) [
    | inl e ↦ absurd (ground arith)
    | inr (part, e) ↦ elim (Option-cases (split_once b'/' part)) [
      | inl f ↦ absurd (ground arith)
      | inr ((key, rest), f) ↦ elim (Option-cases (supported key)) [
        | inl g ↦ absurd (ground arith)
        | inr (eco, g) ↦ ground (arith, parse_rest-ecosystem unquote purl eco rest)
      ]
    ]
  ]

  extracted :
      (purl : Text) (p : Purl)
      → parse_purl unquote purl ≡ ok p
      → extract_package_info unquote purl ≡ ok (info_of p)
  unfolding extract_package_info
  extracted purl p h = rw (h, extract_package_info)

  not_extracted :
      (purl : Text) (e : PurlError)
      → parse_purl unquote purl ≡ value_error e
      → extract_package_info unquote purl ≡ value_error e
  unfolding extract_package_info
  not_extracted purl e h = rw (h, extract_package_info)

  validated :
      (purl : Text) (p : Purl)
      → parse_purl unquote purl ≡ ok p
      → validate_purl_format unquote purl ≡ true
  unfolding validate_purl_format
  validated purl p h = rw (h, validate_purl_format)

  not_validated :
      (purl : Text) (e : PurlError)
      → parse_purl unquote purl ≡ value_error e
      → validate_purl_format unquote purl ≡ false
  unfolding validate_purl_format
  not_validated purl e h = rw (h, validate_purl_format)

  -- A text that `validate_purl_format` accepts has three values that `extract_package_info` returns
  -- without an error, and `get_ecosystem_from_purl` finds the same ecosystem in it; a text that it
  -- rejects raises a `ValueError` there.
  pub validate-extract :
      (purl : Text)
      → ((info : Text × Text × Ecosystem) × (validate_purl_format unquote purl ≡ true)
          × (extract_package_info unquote purl ≡ ok info)
          × (get_ecosystem_from_purl purl ≡ some info.2))
        ⊎ ((e : PurlError) × (validate_purl_format unquote purl ≡ false)
            × (extract_package_info unquote purl ≡ value_error e))
  validate-extract purl = elim (Parsed-cases (parse_purl unquote purl)) [
    | inl (p, h) ↦ inl (
      info_of p,
      validated purl p h,
      extracted purl p h,
      parsed_ecosystem purl p h ∙ ap some (sym (info-ecosystem p)),
    )
    | inr (e, h) ↦ inr (e, not_validated purl e h, not_extracted purl e h)
  ]

  packagist_info :
      (purl : Text) (vendor version : Option Text) (name : Text)
      → info_of (build unquote purl packagist [] version vendor name)
        ≡ (name, get_or_empty version, packagist)
  unfolding info_of build
  packagist_info purl none version name = refl
  packagist_info purl (some []) version name = refl
  packagist_info purl (some (c ∷ s)) version name = refl

  dropped :
      (vendor name : Text) (version : Option Text)
      → IsClean (some vendor) name version
      → extract_package_info unquote (purl_text packagist (some vendor) name version none)
        ≡ ok (unquote name, get_or_empty (Option.map unquote version), packagist)
  dropped vendor name version c =
      extracted _ _ (parse-purl_text unquote packagist (some vendor) name version none c)
      ∙ ap ok (
          packagist_info _ (Option.map unquote (some vendor)) (Option.map unquote version)
            (unquote name))

  -- A Packagist package is named by its vendor and its name, and the vendor is dropped: two purls
  -- that differ in the vendor alone, with any clean parts, give the same package.
  pub packagist_vendor_is_dropped :
      (vendor vendor' name : Text) (version : Option Text)
      → IsClean (some vendor) name version
      → IsClean (some vendor') name version
      → extract_package_info unquote (purl_text packagist (some vendor) name version none)
        ≡ extract_package_info unquote (purl_text packagist (some vendor') name version none)
  packagist_vendor_is_dropped vendor vendor' name version c c' =
      dropped vendor name version c ∙ sym (dropped vendor' name version c')
