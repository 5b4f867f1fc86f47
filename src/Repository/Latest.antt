-- ===== src/Repository/Latest.antt =====
-- `get_latest_package_version` returns the version that was published last.
use mathlib.Core.List.{Memᴰ, List, ◌∷◌}
use packamal.Packages.{instant}
use packamal.Tasks.Outcome.{ret, Outcome, Outcome-cases}
use packamal.Prelude.{
  Option, ℕ, ◌≡◌, ◌⊎◌, some, none, ◌≤◌, subst, codes, inl, arith, Bool-cases, inr, ap, refl, ltb,
  ◌∙◌, eq_of_some, ltb→lt, List, sym, All, ◌∷◌, Text, ◌≢◌, [], ◌==◌,
}
use packamal.Json.{Json, ret_of_bind, get_member, eq_of_ret, is_true, ◌>>=◌, null}
use packamal.Repository.{
  Internet, released, later_of, published_at, own_time, kept_time, scan, get_latest_package_version,
  consider, on_time, HttpAnswer, package_url, version_of, of_ok, versions_of, latest_in, or_null,
}

module _ (net : Internet) where
  -- The version has no time, or the one that is kept is not older.
  pub data AtMost (latest : Option Json) (version : Json) : Type 0 where
    no_time : released net version ≡ ret none → AtMost latest version
    not_later :
        (kept : Json) (last current : ℕ)
        → latest ≡ some kept
        → published_at net kept ≡ ret last
        → released net version ≡ ret (some current)
        → current ≤ last
        → AtMost latest version

  times_agree :
      (ts : Option Json) (at : ℕ) → own_time net ts ≡ ret (some at) → kept_time net ts ≡ ret at
  times_agree none at h = absurd cc
  times_agree (some ts) at h = elim (Bool-cases (is_true ts)) [
    | inr e ↦ absurd (cc (rw e at h))
    | inl e ↦
        let (at', i, same) = ret_of_bind (instant net.fromisoformat ts) _ (rw e at h) in
        i ∙ ap ret (eq_of_some (eq_of_ret same))
  ]

  released-published_at :
      (version : Json) (at : ℕ)
      → released net version ≡ ret (some at)
      → published_at net version ≡ ret at
  unfolding released published_at
  released-published_at version at h =
      let (ts, g, k) = ret_of_bind (get_member (codes "publishedAt") version) (own_time net) h in
      ap (λ (o : Outcome (Option Json)). o >>= kept_time net) g ∙ times_agree ts at k

  -- One round keeps what the rounds before showed, and covers its own version.
  pub record IsStep (version : Json) (before after : Option Json) : Type 0 where
    pub covers : AtMost after version
    pub keeps : (w : Json) → AtMost before w → AtMost after w
    pub from : (after ≡ before) ⊎ (after ≡ some version)

  kept-IsStep :
      (version : Json) (latest : Option Json) → AtMost latest version → IsStep version latest latest
  kept-IsStep version latest c = record {
    covers = c;
    keeps = λ w at_most. at_most;
    from = inl refl;
  }

  -- The version is the later one.
  newer-IsStep :
      (version : Json) (current : ℕ) (before : Option Json)
      → released net version ≡ ret (some current)
      → ((kept : Json) (last : ℕ)
          → before ≡ some kept
          → published_at net kept ≡ ret last
          → last ≤ current)
      → IsStep version before (some version)
  newer-IsStep version current before t older = record {
    covers =
        not_later version current current refl (released-published_at version current t) t
          (omega arith);
    keeps = λ w at_most. elim at_most [
      | no_time e ↦ no_time e
      | not_later kept last c e p r le ↦
          not_later version current c refl (released-published_at version current t) r
            (omega (arith, le, older kept last e p))
    ];
    from = inr refl;
  }

  later_of-IsStep :
      (version : Json) (current : ℕ) (before after : Option Json)
      → released net version ≡ ret (some current)
      → later_of net version current before ≡ ret after
      → IsStep version before after
  unfolding later_of
  later_of-IsStep version current none after t h =
      subst (λ (a : Option Json). IsStep version none a) (eq_of_ret h)
        (newer-IsStep version current none t (λ kept last e p. absurd cc))
  later_of-IsStep version current (some kept) after t h =
      let (last, p, k) = ret_of_bind (published_at net kept) _ h in
      subst (λ (a : Option Json). IsStep version (some kept) a) (eq_of_ret k)
        (elim (Bool-cases (ltb last current)) [
          | inl e ↦ rw e (
              newer-IsStep version current (some kept) t (λ kept' last' same p'. omega (
                arith,
                ltb→lt last current e,
                eq_of_ret (sym p' ∙ (ap (published_at net) (sym (eq_of_some same)) ∙ p)),
              )))
          | inr e ↦ rw e (
              kept-IsStep version (some kept)
                (not_later kept last current refl p t (ground (arith, e))))
        ])

  consider-IsStep :
      (version : Json) (before after : Option Json)
      → consider net version before ≡ ret after
      → IsStep version before after
  unfolding consider
  consider-IsStep version before after h =
      let (ts, t, k) = ret_of_bind (released net version) (on_time net version before) h in
      by_time version before after ts t k
    where
      by_time :
          (version : Json) (before after : Option Json) (ts : Option ℕ)
          → released net version ≡ ret ts
          → on_time net version before ts ≡ ret after
          → IsStep version before after
      by_time version before after none t k =
          subst (λ (a : Option Json). IsStep version before a) (eq_of_ret k)
            (kept-IsStep version before (no_time t))
      by_time version before after (some current) t k =
          later_of-IsStep version current before after t k

  -- What a scan shows of the version that it ends with.
  pub record IsNewest (versions : List Json) (before after : Option Json) : Type 0 where
    pub all_covered : All (AtMost after) versions
    pub all_kept : (w : Json) → AtMost before w → AtMost after w
    pub among : (after ≡ before) ⊎ ((v : Json) × Memᴰ v versions × (after ≡ some v))

  scan-IsNewest :
      (versions : List Json) (before after : Option Json)
      → scan net versions before ≡ ret after
      → IsNewest versions before after
  unfolding scan
  scan-IsNewest [] before after h =
      subst (λ (a : Option Json). IsNewest [] before a) (eq_of_ret h)
        (record { all_covered = tt; all_kept = λ w at_most. at_most; among = inl refl })
  scan-IsNewest (version ∷ versions) before after h =
      let (middle, c, k) = ret_of_bind (consider net version before) (scan net versions) h in
      join version versions before middle after (consider-IsStep version before middle c)
        (scan-IsNewest versions middle after k)
    where
      join :
          (version : Json) (versions : List Json) (before middle after : Option Json)
          → IsStep version before middle
          → IsNewest versions middle after
          → IsNewest (version ∷ versions) before after
      join version versions before middle after step rest = record {
        all_covered = (rest.all_kept version step.covers, rest.all_covered);
        all_kept = λ w at_most. rest.all_kept w (step.keeps w at_most);
        among = elim rest.among [
          | inr (v, m, e) ↦ inr (v, Memᴰ.tail m, e)
          | inl e ↦ elim step.from [
            | inl f ↦ inl (e ∙ f)
            | inr f ↦ inr (version, Memᴰ.head refl, e ∙ f)
          ]
        ];
      }

  -- Where the version comes from.
  pub record IsLatest (package_name ecosystem : Text) (result : Json) : Type 0 where
    pub answer : HttpAnswer
    pub document : Json
    pub versions : List Json
    pub entry : Json
    pub got : net.get (package_url net package_name ecosystem) ≡ ret answer
    pub ok : answer.status_code ≡ 200
    pub parsed : answer.json ≡ ret document
    pub listed : versions_of net document ≡ ret versions
    pub is_entry : Memᴰ entry versions
    pub is_newest : All (AtMost (some entry)) versions
    pub key : version_of net (some entry) ≡ ret result

  entry_of :
      (versions : List Json) (latest : Option Json) (result : Json)
      → scan net versions none ≡ ret latest
      → version_of net latest ≡ ret result
      → result ≢ null
      → (v : Json) × Memᴰ v versions
        × All (AtMost (some v)) versions
        × (version_of net (some v) ≡ ret result)
  entry_of versions none result s h n = absurd (n (sym (eq_of_ret h)))
  entry_of versions (some v) result s h n =
      let newest = scan-IsNewest versions none (some v) s in
      elim newest.among [
        | inl e ↦ absurd cc
        | inr (w, m, e) ↦
            (v, subst (λ (x : Json). Memᴰ x versions) (sym (eq_of_some e)) m, newest.all_covered, h)
      ]

  answered :
      (package_name ecosystem : Text) (result : Json)
      → (net.get (package_url net package_name ecosystem) >>= of_ok net (latest_in net))
        ≡ ret result
      → result ≢ null
      → IsLatest package_name ecosystem result
  answered package_name ecosystem result h n =
      let (answer, g, h1) =
        ret_of_bind (net.get (package_url net package_name ecosystem)) (of_ok net (latest_in net))
          h in
      elim (Bool-cases (answer.status_code == 200)) [
        | inr e ↦ absurd (n (sym (eq_of_ret (rw e at h1))))
        | inl e ↦
            let (document, j, h2) = ret_of_bind answer.json (latest_in net) (rw e at h1) in
            let (latest, h3, h4) =
              ret_of_bind (versions_of net document >>= (λ vs. scan net vs none)) (version_of net)
                h2 in
            let (versions, l, s) =
              ret_of_bind (versions_of net document) (λ vs. scan net vs none) h3 in
            let (v, m, all, k) = entry_of versions latest result s h4 n in
            record {
              answer = answer;
              document = document;
              versions = versions;
              entry = v;
              got = g;
              ok = ground (arith, e);
              parsed = j;
              listed = l;
              is_entry = m;
              is_newest = all;
              key = k;
            }
      ]

  -- When `get_latest_package_version` returns a version, deps.dev answered with status 200 and a
  -- list of versions, the result is the version in the key of an entry of that list, and every
  -- entry of the list that has a time was published no later than that entry.
  pub get_latest_package_version-IsLatest :
      (package_name ecosystem : Text)
      → get_latest_package_version net package_name ecosystem ≢ null
      → IsLatest package_name ecosystem (get_latest_package_version net package_name ecosystem)
  unfolding get_latest_package_version
  get_latest_package_version-IsLatest package_name ecosystem n =
      elim (Outcome-cases
        (net.get (package_url net package_name ecosystem) >>= of_ok net (latest_in net))) [
          | inr (e, h) ↦ absurd (n (ap (or_null net) h))
          | inl (result, h) ↦
              let same = ap (or_null net) h in
              subst (λ (r : Json). IsLatest package_name ecosystem r) (sym same)
                (answered package_name ecosystem result h (λ null_result. n (same ∙ null_result)))
        ]
