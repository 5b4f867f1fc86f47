-- ===== src/Runner/Commands.antt =====
-- When `run_analysis` returns, and where the local package is mounted.
use packamal.Prelude.{zero, false, none, suc, eq_of_some}
use packamal.Runner.Flags.{meant}
use packamal.Runner.Arguments.{build_docker_mounts, mount, mounted_pkg_path, mounted_path}
use packamal.Models.{failed}
use packamal.Prelude.{
  List, ◌≡◌, ◌++◌, ◌∷◌, Text, ap, Option, ◌⊎◌, [], refl, true, inl, inr, Bool, none, truthy,
  if◌then◌else◌, some, Option-cases, ◌↔◌,
}
use packamal.Runner.Run.{
  run_analysis, invalid_path, execute, docker_cmd, conclude, stream, capture, end_of_run,
  end_of_stream, with_image, output_of,
}
use packamal.Runner.{
  Host, Ran, List, AnalysisRunner, ReturnCode, returned, Failure, failed, Analysis, Process, Stream,
  exited, streamed, ended, check_image_exists, no_process, no_stream, bad_value, signalled,
}

Ran-cases :
    {A : Type 0} (r : Ran A) → ((a : A) × (r ≡ returned a)) ⊎ ((e : Failure) × (r ≡ failed e))
Ran-cases (returned a) = inl (a, refl)
Ran-cases (failed e) = inr (e, refl)

append_assoc : {A : Type 0} (xs ys zs : List A) → (xs ++ ys) ++ zs ≡ xs ++ (ys ++ zs)
append_assoc [] ys zs = refl
append_assoc (x ∷ xs) ys zs = ap (λ r. x ∷ r) (append_assoc xs ys zs)

module _ {S : Type 0} (host : Host S) (runner : AnalysisRunner) where
  -- Whatever was executed returned: the process ended with the exit status zero.
  conclude-returned :
      (code c : ReturnCode) (command : List Text) (output o : Option Text)
      → conclude host runner code command output ≡ returned (c, o)
      → c ≡ exited 0
  conclude-returned (exited zero) c command output o h = cc
  conclude-returned (exited (suc n)) c command output o h = absurd cc
  conclude-returned (signalled n) c command output o h = absurd cc

  module _ (command : List Text) (c : ReturnCode) (o : Option Text) where
    end_of_stream-returned :
        (r : Stream × S) → (end_of_stream host runner command r).0 ≡ returned (c, o) → c ≡ exited 0
    end_of_stream-returned (streamed code lines, s) h =
        conclude-returned code c command (output_of host runner lines) o h
    end_of_stream-returned (no_stream message, s) h = absurd cc

    end_of_run-returned :
        (r : Process × S) → (end_of_run host runner command r).0 ≡ returned (c, o) → c ≡ exited 0
    end_of_run-returned (ended code stdout stderr, s) h =
        conclude-returned code c command (some (stdout ++ stderr)) o h
    end_of_run-returned (no_process message, s) h = absurd cc

    execute-returned :
        (streams : Bool) (s : S)
        → (execute host runner streams command s).0 ≡ returned (c, o)
        → c ≡ exited 0
    unfolding stream capture
    execute-returned true s h = end_of_stream-returned (host.popen command s) h
    execute-returned false s h = end_of_run-returned (host.run command s) h

  -- The command of the analysis ran in some state and gave the result.
  abbrev pub Executed : Analysis → Ran (ReturnCode × Option Text) × S → Type 0
  Executed a r = (s₀ : S) × (execute host runner a.stream_output (docker_cmd host runner a) s₀ ≡ r)

  with_image-Executed :
      (a : Analysis) (r : Ran Bool × S) (x : ReturnCode × Option Text) (s' : S)
      → with_image host runner a r ≡ (returned x, s')
      → Executed a (returned x, s')
  with_image-Executed a (returned image_exists, s) x s' h = (s, h)
  with_image-Executed a (failed failure, s) x s' h =
      let e : failed failure ≡ returned x = ap (λ r. r.0) h in absurd cc

  pub run_analysis-returned :
      (a : Analysis) (s s' : S) (c : ReturnCode) (o : Option Text)
      → run_analysis host runner a s ≡ (returned (c, o), s')
      → (c ≡ exited 0)
        × (invalid_path host runner a.local_path ≡ none)
        × Executed a (returned (c, o), s')
  unfolding run_analysis
  run_analysis-returned a s s' c o h = elim (Option-cases (invalid_path host runner a.local_path)) [
    | inr (message, e) ↦
        let k : failed (bad_value message) ≡ returned (c, o) =
          ap (λ r. r.0) (rw (e, run_analysis) at h) in
        absurd cc
    | inl e ↦
        let (s₀, x) = ran a.check_image (rw (e, run_analysis) at h) in
        (
          execute-returned (docker_cmd host runner a) c o a.stream_output s₀ (ap (λ r. r.0) x),
          e,
          (s₀, x),
        )
  ]
    where
      ran :
          (b : Bool)
          → (if b
              then with_image host runner a (check_image_exists host runner.analysis_image s)
              else execute host runner a.stream_output (docker_cmd host runner a) s)
            ≡ (returned (c, o), s')
          → Executed a (returned (c, o), s')
      ran true k =
          with_image-Executed a (check_image_exists host runner.analysis_image s) (c, o) s' k
      ran false k = (s, k)

  -- With a local path, the mounts are those without one and then the mount of the resolved path, and
  -- the path in the container that the analysis is told is the target of that mount exactly if
  -- resolving the path keeps the file's name.
  pub local_path-mount :
      (a : Analysis) (p : Text)
      → truthy a.local_path ≡ some p
      → (target : Text) × (build_docker_mounts host runner a.local_path
          ≡ build_docker_mounts host runner none
            ++ mount (host.resolve p) (mounted_pkg_path host p))
        × ((meant host a).local ≡ some target)
        × ((target ≡ mounted_pkg_path host p) ↔ (host.name p ≡ host.name (host.resolve p)))
  unfolding build_docker_mounts
  local_path-mount a p e =
      (mounted_path host p, mounts a.local_path e, told a.local_path e, (λ h. cc, λ h. cc))
    where
      mounts :
          (x : Option Text)
          → truthy x ≡ some p
          → build_docker_mounts host runner x
            ≡ build_docker_mounts host runner none
              ++ mount (host.resolve p) (mounted_pkg_path host p)
      mounts none h = absurd cc
      mounts (some []) h = absurd cc
      mounts (some (c ∷ s)) h =
          ap
            (λ t.
              build_docker_mounts host runner none
              ++ mount (host.resolve t) (mounted_pkg_path host t))
            (eq_of_some h)

      told :
          (x : Option Text)
          → truthy x ≡ some p
          → (elim (truthy x) [ none ↦ none | some t ↦ some (mounted_path host t) ])
            ≡ some (mounted_path host p)
      told none h = absurd cc
      told (some []) h = absurd cc
      told (some (c ∷ s)) h = ap (λ t. some (mounted_path host t)) (eq_of_some h)
