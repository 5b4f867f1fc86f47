-- ===== src/Purl/Print.antt =====
-- A purl that is put together from quoted parts is parsed into them.
use packamal.Purl.{
  Ecosystem, maven, npm, pypi, rubygems, packagist, dict_set, add_pairs, parse_qualifiers,
  parse_purl, ok, build,
}
use packamal.Purl.Trip.{
  purl_text, with_suffix, with_namespace, IsClean, Slashes, parse-purl_text, qualifiers_of,
}
use packamal.Prelude.{
  ℕ, Option, Text, List, ◌≡◌, ◌≢◌, Avoids, [], arith, none, some, ◌++◌, ◌∷◌, split_once-append,
  refl, ap, ◌∙◌, sym, map, split, split-append, split-whole, All, text_eq, Bool-cases, inl, inr,
  text_eq→eq, is_nonempty, true, Avoids-append,
}
use mathlib.Core.Option
use mathlib.Core.List.{append_assoc, append-nil}

-- Not a character that separates the parts of a purl.
abbrev pub IsPlain : ℕ → Type 0
IsPlain c = (c ≢ b'/') × (c ≢ b'?') × (c ≢ b'@') × (c ≢ b'&') × (c ≢ b'=')

-- `urllib.parse.quote(text, safe='')` and `unquote`: unquoting gives the text back, and what is
-- quoted holds only letters, digits and the characters `_.-~%`.
pub record IsQuoting (quote unquote : Text → Text) : Type 0 where
  pub unquotes : (t : Text) → unquote (quote t) ≡ t
  pub plain : (t : Text) → All IsPlain (quote t)

abbrev pub pair_text : (Text → Text) → Text × Text → Text
pair_text quote (key, value) = quote key ++ (b'=' ∷ quote value)

-- `sep.join(texts)`
abbrev pub join : ℕ → List Text → Text
join sep [] = []
join sep (t ∷ []) = t
join sep (t ∷ (u ∷ ts)) = t ++ (sep ∷ join sep (u ∷ ts))

abbrev pub pairs_text : (Text → Text) → List (Text × Text) → Option Text
pairs_text quote [] = none
pairs_text quote (p ∷ ps) = some (join b'&' (map (pair_text quote) (p ∷ ps)))

-- pkg:<ecosystem>/[<namespace>/]<name>[@<version>][?<key>=<value>&...]
abbrev pub print_purl :
    (Text → Text) → Ecosystem → Option Text → Text → Option Text → List (Text × Text) → Text
print_purl quote ecosystem namespace name version qualifiers =
    purl_text ecosystem (Option.map quote namespace) (quote name) (Option.map quote version)
      (pairs_text quote qualifiers)

abbrev pub DistinctKeys : List (Text × Text) → Type 0
DistinctKeys [] = Unit
DistinctKeys (p ∷ ps) = All (λ (q : Text × Text). p.0 ≢ q.0) ps × DistinctKeys ps

abbrev pub IsFilled : Option Text → Type 0
IsFilled none = Unit
IsFilled (some t) = is_nonempty t ≡ true

-- Maven's group id stands in the name, before a colon.
abbrev pub full_name : Ecosystem → Option Text → Text → Text
full_name maven (some namespace) name = namespace ++ (b':' ∷ name)
full_name _ _ name = name

abbrev pub own_namespace : Ecosystem → Option Text → Option Text
own_namespace maven namespace = none
own_namespace _ namespace = namespace

split-join :
    (sep : ℕ) (t : Text) (ts : List Text)
    → All (Avoids sep) (t ∷ ts)
    → split sep (join sep (t ∷ ts)) ≡ t ∷ ts
split-join sep t [] h = split-whole sep t h.0
split-join sep t (u ∷ ts) h =
    split-append sep t (join sep (u ∷ ts)) h.0 ∙ ap (λ r. t ∷ r) (split-join sep u ts h.1)

dict_set-new :
    (k v : Text) (d : List (Text × Text))
    → All (λ (p : Text × Text). p.0 ≢ k) d
    → dict_set k v d ≡ d ++ ((k, v) ∷ [])
unfolding dict_set
dict_set-new k v [] h = refl
dict_set-new k v ((j, w) ∷ d) h = elim (Bool-cases (text_eq j k)) [
  | inl e ↦ absurd (h.0 (text_eq→eq j k e))
  | inr e ↦ rw (e, dict_set) (ap (λ r. (j, w) ∷ r) (dict_set-new k v d h.1))
]

avoids : (sep : ℕ) (t : Text) → ((c : ℕ) → IsPlain c → c ≢ sep) → All IsPlain t → Avoids sep t
avoids sep [] f h = tt
avoids sep (c ∷ t) f h = (f c h.0, avoids sep t f h.1)

module _ (quote unquote : Text → Text) (q : IsQuoting quote unquote) where
  add_pairs-print :
      (ps d : List (Text × Text))
      → DistinctKeys ps
      → All (λ (e : Text × Text). All (λ (p : Text × Text). e.0 ≢ p.0) ps) d
      → add_pairs unquote (map (pair_text quote) ps) d ≡ d ++ ps
  unfolding add_pairs
  add_pairs-print [] d u h = sym (append-nil d)
  add_pairs-print ((k, v) ∷ ps) d u h =
      let found =
        split_once-append b'=' (quote k) (quote v)
          (avoids b'=' (quote k) (λ c p. p.4) (q.plain k)) in
      rw (found, add_pairs)
        (rw (q.unquotes k, q.unquotes v, dict_set-new k v d (firsts d h))
          (add_pairs-print ps (d ++ ((k, v) ∷ [])) u.1 (rests d h)
            ∙ append_assoc d ((k, v) ∷ []) ps))
    where
      firsts :
          (d : List (Text × Text))
          → All (λ (e : Text × Text). All (λ (p : Text × Text). e.0 ≢ p.0) ((k, v) ∷ ps)) d
          → All (λ (e : Text × Text). e.0 ≢ k) d
      firsts [] h = tt
      firsts (e ∷ d) h = (h.0.0, firsts d h.1)

      rests :
          (d : List (Text × Text))
          → All (λ (e : Text × Text). All (λ (p : Text × Text). e.0 ≢ p.0) ((k, v) ∷ ps)) d
          → All (λ (e : Text × Text). All (λ (p : Text × Text). e.0 ≢ p.0) ps) (d ++ ((k, v) ∷ []))
      rests [] h = (u.0, tt)
      rests (e ∷ d) h = (h.0.1, rests d h.1)

  pair_text-Avoids : (p : Text × Text) → Avoids b'&' (pair_text quote p)
  pair_text-Avoids (k, v) =
      Avoids-append b'&' (quote k) (b'=' ∷ quote v) (avoids b'&' (quote k) (λ c p. p.3) (q.plain k))
        (omega arith, avoids b'&' (quote v) (λ c p. p.3) (q.plain v))

  pairs-Avoid : (ps : List (Text × Text)) → All (Avoids b'&') (map (pair_text quote) ps)
  pairs-Avoid [] = tt
  pairs-Avoid (p ∷ ps) = (pair_text-Avoids p, pairs-Avoid ps)

  parse_qualifiers_lem :
      (t : Text) → parse_qualifiers unquote t ≡ add_pairs unquote (split b'&' t) []
  unfolding parse_qualifiers
  parse_qualifiers_lem [] = refl
  parse_qualifiers_lem (c ∷ t) = refl

  qualifiers-print :
      (ps : List (Text × Text)) → DistinctKeys ps → qualifiers_of unquote (pairs_text quote ps) ≡ ps
  qualifiers-print [] u = refl
  qualifiers-print (p ∷ ps) u =
      parse_qualifiers_lem (join b'&' (map (pair_text quote) (p ∷ ps)))
      ∙ (ap (λ ts. add_pairs unquote ts [])
            (split-join b'&' (pair_text quote p) (map (pair_text quote) ps) (pairs-Avoid (p ∷ ps)))
          ∙ add_pairs-print (p ∷ ps) [] u tt)

  unquotes-option : (o : Option Text) → Option.map unquote (Option.map quote o) ≡ o
  unquotes-option none = refl
  unquotes-option (some t) = ap some (q.unquotes t)

  build_lem :
      (purl : Text) (e : Ecosystem) (ns : Option Text) (name : Text) (version : Option Text)
      (ps : List (Text × Text))
      → IsFilled ns
      → is_nonempty name ≡ true
      → build unquote purl e ps version ns name ≡ record {
        ecosystem = e;
        namespace = own_namespace e ns;
        name = some (full_name e ns name);
        version = version;
        qualifiers = ps;
        original_purl = purl;
      }
  unfolding build
  build_lem purl maven none (d ∷ m) version ps f n = refl
  build_lem purl maven (some (c ∷ s)) (d ∷ m) version ps f n = refl
  build_lem purl maven (some []) (d ∷ m) version ps f n = absurd (ground arith)
  build_lem purl maven ns [] version ps f n = absurd (ground arith)
  build_lem purl npm ns name version ps f n = refl
  build_lem purl pypi ns name version ps f n = refl
  build_lem purl rubygems ns name version ps f n = refl
  build_lem purl packagist ns name version ps f n = refl

  path_Avoids :
      (sep : ℕ) (ns : Option Text) (name : Text)
      → ((c : ℕ) → IsPlain c → c ≢ sep)
      → b'/' ≢ sep
      → Avoids sep (with_namespace (Option.map quote ns) (quote name))
  path_Avoids sep none name f s = avoids sep (quote name) f (q.plain name)
  path_Avoids sep (some ns) name f s =
      Avoids-append sep (quote ns) (b'/' ∷ quote name) (avoids sep (quote ns) f (q.plain ns))
        (s, avoids sep (quote name) f (q.plain name))

  quoted-IsClean :
      (ns : Option Text) (name : Text) (version : Option Text)
      → IsClean (Option.map quote ns) (quote name) (Option.map quote version)
  quoted-IsClean ns name version =
      (slashes ns, path_Avoids b'@' ns name (λ c p. p.2) (omega arith), marks version)
    where
      slashes : (ns : Option Text) → Slashes (Option.map quote ns) (quote name)
      slashes none = avoids b'/' (quote name) (λ c p. p.0) (q.plain name)
      slashes (some s) = avoids b'/' (quote s) (λ c p. p.0) (q.plain s)

      marks :
          (version : Option Text)
          → Avoids b'?' (
              with_suffix b'@'
                (with_namespace (Option.map quote ns) (quote name))
                (Option.map quote version))
      marks none = path_Avoids b'?' ns name (λ c p. p.1) (omega arith)
      marks (some v) =
          Avoids-append b'?' _ (b'@' ∷ quote v)
            (path_Avoids b'?' ns name (λ c p. p.1) (omega arith))
            (omega arith, avoids b'?' (quote v) (λ c p. p.1) (q.plain v))

  -- If unquoting gives quoted texts back and quoted texts hold no separators, a purl that is put
  -- together from a supported ecosystem, a namespace or none, a name, a version or none, none of
  -- them empty, and qualifiers with distinct keys is parsed into exactly these parts, except that
  -- for Maven the namespace stands in the name, before a colon.
  pub parse-print :
      (e : Ecosystem) (ns : Option Text) (name : Text) (version : Option Text)
      (ps : List (Text × Text))
      → IsFilled ns
      → is_nonempty name ≡ true
      → IsFilled version
      → DistinctKeys ps
      → parse_purl unquote (print_purl quote e ns name version ps)
        ≡ ok (record {
          ecosystem = e;
          namespace = own_namespace e ns;
          name = some (full_name e ns name);
          version = version;
          qualifiers = ps;
          original_purl = print_purl quote e ns name version ps;
        })
  parse-print e ns name version ps f n v u =
      parse-purl_text unquote e (Option.map quote ns) (quote name) (Option.map quote version)
        (pairs_text quote ps) (quoted-IsClean ns name version)
      ∙ rw (qualifiers-print ps u, unquotes-option version, unquotes-option ns, q.unquotes name)
          (ap ok (build_lem (print_purl quote e ns name version ps) e ns name version ps f n))
