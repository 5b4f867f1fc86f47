-- ===== src/Containers/Listing.antt =====
-- `get_running_containers` reads back the lines that docker prints.
use packamal.Containers.{
  Container, containers_of, get_running_containers, Shell, output, ps_command,
}
use packamal.Prelude.{
  join_lines, List, Avoids, Text, split, All, ◌≡◌, Avoids-append, ◌∷◌, is_nonempty, ◌++◌, [], true,
  arith, refl, map, split-append, ◌∙◌, ap, split-whole,
}

-- A line of `docker ps --format ...`
abbrev pub line_of : Container → Text
line_of c = c.id ++ (9 ∷ (c.image ++ (9 ∷ (c.status ++ (9 ∷ c.name)))))

-- The fields hold neither a tab nor a line break, and the line is not blank.
pub record IsPlain (shell : Shell) (c : Container) : Type 0 where
  pub id : Avoids 9 c.id × Avoids 10 c.id
  pub image : Avoids 9 c.image × Avoids 10 c.image
  pub status : Avoids 9 c.status × Avoids 10 c.status
  pub name : Avoids 9 c.name × Avoids 10 c.name
  pub visible : is_nonempty (shell.strip (line_of c)) ≡ true

module _ (shell : Shell) where
  split-line_of :
      (c : Container)
      → IsPlain shell c
      → split 9 (line_of c) ≡ c.id ∷ c.image ∷ c.status ∷ c.name ∷ []
  split-line_of c p =
      split-append 9 c.id _ p.id.0
      ∙ ap (λ r. c.id ∷ r)
          (split-append 9 c.image _ p.image.0
            ∙ ap (λ r. c.image ∷ r)
                (split-append 9 c.status _ p.status.0
                  ∙ ap (λ r. c.status ∷ r) (split-whole 9 c.name p.name.0)))

  line_of-Avoids : (c : Container) → IsPlain shell c → Avoids 10 (line_of c)
  line_of-Avoids c p = Avoids-append 10 c.id _ p.id.1 (
    omega arith,
    Avoids-append 10 c.image _ p.image.1
        (omega arith, Avoids-append 10 c.status _ p.status.1 (omega arith, p.name.1)),
  )

  containers_of-line_of :
      (c : Container) (lines : List Text)
      → IsPlain shell c
      → containers_of shell (line_of c ∷ lines) ≡ c ∷ containers_of shell lines
  unfolding containers_of
  containers_of-line_of c lines p = rw (p.visible, containers_of) (rw (split-line_of c p) refl)

  read_back :
      (cs : List Container)
      → All (IsPlain shell) cs
      → shell.strip [] ≡ []
      → containers_of shell (split 10 (join_lines (map line_of cs))) ≡ cs
  unfolding containers_of split
  read_back [] a e = rw (e, containers_of) refl
  read_back (c ∷ []) a e =
      ap (containers_of shell) (split-whole 10 (line_of c) (line_of-Avoids c a.0))
      ∙ containers_of-line_of c [] a.0
  read_back (c ∷ (d ∷ cs)) a e =
      ap (containers_of shell) (split-append 10 (line_of c) _ (line_of-Avoids c a.0))
      ∙ (containers_of-line_of c _ a.0 ∙ ap (λ r. c ∷ r) (read_back (d ∷ cs) a.1 e))

  -- If docker prints a line for each container, whose fields hold neither a tab nor a line break,
  -- and stripping leaves the whole text and the empty one as they are and no line blank,
  -- `get_running_containers` is the list of these containers.
  pub get_running_containers_lem :
      (cs : List Container) (text : Text)
      → shell.run ps_command ≡ output text
      → shell.strip text ≡ join_lines (map line_of cs)
      → shell.strip [] ≡ []
      → All (IsPlain shell) cs
      → get_running_containers shell ≡ cs
  unfolding get_running_containers
  get_running_containers_lem cs text printed stripped empty plain =
      rw (printed, get_running_containers) (rw stripped (read_back cs plain empty))
