-- ===== src/Purl/Trip.antt =====
-- What the steps of the parser find in a text that is put together from clean parts.
use packamal.Prelude.{
  Option, ℕ, Text, codes, List, ◌≡◌, Avoids, [], split_once-none, split_once, arith, none, ◌++◌,
  ◌∷◌, split_once-append, refl, ap,
}
use mathlib.Core.Option.{Option, some}
use mathlib.Core.Option
use packamal.Purl.{
  Ecosystem, pypi, npm, rubygems, maven, packagist, supported, take_namespace, take_qualifiers,
  take_version, parse_purl, ok, build, parse_qualifiers, parse_rest, parse_parts,
}

abbrev pub key_of : Ecosystem → Text
key_of pypi = codes "pypi"
key_of npm = codes "npm"
key_of rubygems = codes "gem"
key_of maven = codes "maven"
key_of packagist = codes "packagist"

-- `t`, or `t`, the separator and `x`.
abbrev pub with_suffix : ℕ → Text → Option Text → Text
with_suffix sep t none = t
with_suffix sep t (some x) = t ++ (sep ∷ x)

abbrev pub with_namespace : Option Text → Text → Text
with_namespace none name = name
with_namespace (some namespace) name = namespace ++ (b'/' ∷ name)

-- pkg:<ecosystem>/[<namespace>/]<name>[@<version>][?<qualifiers>]
abbrev pub purl_text : Ecosystem → Option Text → Text → Option Text → Option Text → Text
purl_text ecosystem namespace name version qualifiers =
    codes "pkg:"
    ++ (key_of ecosystem
        ++ (b'/'
            ∷ with_suffix b'?' (with_suffix b'@' (with_namespace namespace name) version)
                qualifiers))

abbrev pub Slashes : Option Text → Text → Type 0
Slashes none name = Avoids b'/' name
Slashes (some namespace) name = Avoids b'/' namespace

-- No part holds the separator that ends it.
abbrev pub IsClean : Option Text → Text → Option Text → Type 0
IsClean namespace name version =
    Slashes namespace name
    × Avoids b'@' (with_namespace namespace name)
    × Avoids b'?' (with_suffix b'@' (with_namespace namespace name) version)

key_of-supported : (e : Ecosystem) → (supported (key_of e) ≡ some e) × Avoids b'/' (key_of e)
unfolding supported
key_of-supported pypi = (refl, omega arith)
key_of-supported npm = (refl, omega arith)
key_of-supported rubygems = (refl, omega arith)
key_of-supported maven = (refl, omega arith)
key_of-supported packagist = (refl, omega arith)

split_once-with_suffix :
    (sep : ℕ) (t : Text) (o : Option Text)
    → Avoids sep t
    → split_once sep (with_suffix sep t o) ≡ Option.map (λ x. (t, x)) o
split_once-with_suffix sep t none h = split_once-none sep t h
split_once-with_suffix sep t (some x) h = split_once-append sep t x h

module _ (unquote : Text → Text) where
  abbrev pub qualifiers_of : Option Text → List (Text × Text)
  qualifiers_of none = []
  qualifiers_of (some q) = parse_qualifiers unquote q

  take_qualifiers_lem :
      (t : Text) (q : Option Text)
      → Avoids b'?' t
      → take_qualifiers unquote (with_suffix b'?' t q) ≡ (t, qualifiers_of q)
  unfolding take_qualifiers
  take_qualifiers_lem t none h = rw (split_once-none b'?' t h, take_qualifiers)
  take_qualifiers_lem t (some q) h = rw (split_once-append b'?' t q h, take_qualifiers)

  take_version_lem :
      (t : Text) (v : Option Text)
      → Avoids b'@' t
      → take_version unquote (with_suffix b'@' t v) ≡ (t, Option.map unquote v)
  unfolding take_version
  take_version_lem t none h = rw (split_once-none b'@' t h, take_version)
  take_version_lem t (some v) h = rw (split_once-append b'@' t v h, take_version)

  take_namespace_lem :
      (ns : Option Text) (name : Text)
      → Slashes ns name
      → take_namespace unquote (with_namespace ns name) ≡ (Option.map unquote ns, unquote name)
  unfolding take_namespace
  take_namespace_lem none name h = rw (split_once-none b'/' name h, take_namespace)
  take_namespace_lem (some ns) name h = rw (split_once-append b'/' ns name h, take_namespace)

  parse_rest_lem :
      (purl : Text) (e : Ecosystem) (ns : Option Text) (name : Text)
      (version qualifiers : Option Text)
      → IsClean ns name version
      → parse_rest unquote purl e
          (with_suffix b'?' (with_suffix b'@' (with_namespace ns name) version) qualifiers)
        ≡ build unquote purl e
            (qualifiers_of qualifiers)
            (Option.map unquote version)
            (Option.map unquote ns)
            (unquote name)
  unfolding parse_rest
  parse_rest_lem purl e ns name version qualifiers clean =
      rw
        (take_qualifiers_lem (with_suffix b'@' (with_namespace ns name) version) qualifiers clean.2)
        (rw (take_version_lem (with_namespace ns name) version clean.1)
          (rw (take_namespace_lem ns name clean.0)))

  -- For each supported ecosystem and all parts that do not hold the separators that end them, the
  -- parser finds the unquoted parts, whichever of the namespace, version and qualifiers are there.
  pub parse-purl_text :
      (e : Ecosystem) (ns : Option Text) (name : Text) (version qualifiers : Option Text)
      → IsClean ns name version
      → parse_purl unquote (purl_text e ns name version qualifiers)
        ≡ ok (
            build unquote
              (purl_text e ns name version qualifiers)
              e
              (qualifiers_of qualifiers)
              (Option.map unquote version)
              (Option.map unquote ns)
              (unquote name))
  unfolding parse_purl
  parse-purl_text e ns name version qualifiers clean =
      rw
        (
          split_once-append b'/' (key_of e)
              (with_suffix b'?' (with_suffix b'@' (with_namespace ns name) version) qualifiers)
              (key_of-supported e).1,
          parse_purl,
        )
        (rw ((key_of-supported e).0, parse_parts)
          (ap ok (parse_rest_lem _ e ns name version qualifiers clean)))
