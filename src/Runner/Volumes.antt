-- ===== src/Runner/Volumes.antt =====
-- `_ensure_volumes` makes the volumes exist, if the docker daemon does what its manual says.
use packamal.Prelude.{
  Text, Bool, ◌≡◌, List, true, All, Bool-cases, ◌∷◌, inl, inr, false, ℕ, suc, refl, [], ap, ◌∙◌,
  leb, ◌&&◌, ◌||◌, ◌==◌,
}
use packamal.Runner.{
  Host, ensure_volumes, ensure_volume, inspect_volume, create_volume, checked, returned, ended,
  exited, or_create, check, and_then,
}

abbrev pub is_alnum : ℕ → Bool
is_alnum c =
    (leb b'0' c && leb c b'9') || ((leb b'a' c && leb c b'z') || (leb b'A' c && leb c b'Z'))

abbrev pub name_rest : Text → Bool
name_rest [] = true
name_rest (c ∷ s) = (is_alnum c || (c == b'_' || (c == b'.' || c == b'-'))) && name_rest s

-- A name that docker accepts: `[a-zA-Z0-9][a-zA-Z0-9_.-]+`.
abbrev pub is_volume_name : Text → Bool
is_volume_name (c ∷ (d ∷ s)) = is_alnum c && name_rest (d ∷ s)
is_volume_name _ = false

-- `docker volume inspect` succeeds exactly for the volumes that exist, and changes nothing;
-- `docker volume create` of one that does not exist and has a valid name creates it and keeps the
-- others.
pub record IsDaemon {S : Type 0} (host : Host S) (has : S → Text → Bool) : Type 0 where
  pub inspects :
      (v : Text) (s : S)
      → has s v ≡ true
      → (out : Text) × (err : Text) × (host.run (inspect_volume host v) s
          ≡ (ended (exited 0) out err, s))
  pub misses :
      (v : Text) (s : S)
      → has s v ≡ false
      → (status : ℕ) × (out : Text) × (err : Text) × (host.run (inspect_volume host v) s
          ≡ (ended (exited (suc status)) out err, s))
  pub creates :
      (v : Text) (s : S)
      → has s v ≡ false
      → is_volume_name v ≡ true
      → (out : Text) × (err : Text) × (s' : S) × (host.run (create_volume host v) s
          ≡ (ended (exited 0) out err, s'))
        × (has s' v ≡ true)
        × ((u : Text) → has s u ≡ true → has s' u ≡ true)

module _ {S : Type 0} (host : Host S) (has : S → Text → Bool) (daemon : IsDaemon host has) where
  -- The volume exists afterwards, and those that existed do.
  abbrev Ensured : List Text → S → S → Type 0
  Ensured vs s s' = All (λ v. has s' v ≡ true) vs × ((u : Text) → has s u ≡ true → has s' u ≡ true)

  ensure_volume-known :
      (v : Text) (s : S)
      → has s v ≡ true
      → (out : Text) × (ensure_volume host v s ≡ (returned out, s))
  unfolding ensure_volume checked
  ensure_volume-known v s h =
      let (out, err, e) = daemon.inspects v s h in
      (out, ap (λ r. or_create host v (check host (inspect_volume host v) r)) e)

  ensure_volume_lem :
      (v : Text) (s : S)
      → is_volume_name v ≡ true
      → (out : Text) × (s' : S) × (ensure_volume host v s ≡ (returned out, s'))
        × (has s' v ≡ true)
        × ((u : Text) → has s u ≡ true → has s' u ≡ true)
  unfolding ensure_volume checked
  ensure_volume_lem v s valid = elim (Bool-cases (has s v)) [
    | inl h ↦ let (out, e) = ensure_volume-known v s h in (out, s, e, h, λ u k. k)
    | inr h ↦
        let (status, o, r, e) = daemon.misses v s h in
        let (out, err, s', e', made, kept) = daemon.creates v s h valid in
        (
          out,
          s',
          ap (λ r. or_create host v (check host (inspect_volume host v) r)) e
              ∙ ap (check host (create_volume host v)) e',
          made,
          kept,
        )
  ]

  ensure_volumes-known :
      (vs : List Text) (s : S)
      → All (λ v. has s v ≡ true) vs
      → ensure_volumes host vs s ≡ (returned tt, s)
  unfolding ensure_volumes
  ensure_volumes-known [] s h = refl
  ensure_volumes-known (v ∷ vs) s h =
      let (out, e) = ensure_volume-known v s h.0 in
      ap (and_then host (ensure_volumes host vs)) e ∙ ensure_volumes-known vs s h.1

  -- If the daemon does what its manual says and docker accepts the names of the volumes,
  -- `_ensure_volumes` returns, all of its volumes exist afterwards, no volume is lost, and a second
  -- call finds nothing to do.
  pub ensure_volumes_lem :
      (vs : List Text) (s : S)
      → All (λ v. is_volume_name v ≡ true) vs
      → (s' : S) × (ensure_volumes host vs s ≡ (returned tt, s'))
        × All (λ v. has s' v ≡ true) vs
        × ((u : Text) → has s u ≡ true → has s' u ≡ true)
        × (ensure_volumes host vs s' ≡ (returned tt, s'))
  unfolding ensure_volumes
  ensure_volumes_lem [] s valid = (s, refl, tt, λ u k. k, refl)
  ensure_volumes_lem (v ∷ vs) s valid =
      let (out, s₁, e, made, kept) = ensure_volume_lem v s valid.0 in
      let (s', e', all, keep, again) = ensure_volumes_lem vs s₁ valid.1 in
      let exist : All (λ u. has s' u ≡ true) (v ∷ vs) = (keep v made, all) in
      (
        s',
        ap (and_then host (ensure_volumes host vs)) e ∙ e',
        exist,
        λ u k. keep u (kept u k),
        ensure_volumes-known (v ∷ vs) s' exist,
      )
