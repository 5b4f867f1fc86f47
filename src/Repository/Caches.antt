-- ===== src/Repository/Caches.antt =====
-- What the files of names give back, and what `fetch_crates_package_list` finds.
use packamal.Prelude.{none, some}
use packamal.Json.{eq_of_ret}
use packamal.Repository.Crates.{fetch_crates_package_list, clone_missing, get_all_crates}
use packamal.Repository.{HttpAnswer}
use packamal.Packages.Extract.{then_do}
use packamal.Tasks.Outcome.{Outcome, ret, raise, Outcome-cases}
use packamal.Repository.Lists.{
  Disk, save_csv, first_cells, except, csv_rows, get_rubygems_packages, get_pypi_packages,
  fetch_csv, returning, rubygems_packages_path, pypi_packages_path, memoized, kept_by,
}
use packamal.Prelude.{
  List, Text, ◌≡◌, true, [], map, ◌∷◌, ◌≢◌, ap, subst, sym, false, refl, inr, inl, codes, ◌∙◌,
  Option, some, All, arith,
}

-- No carriage return and no line feed: the file is read with universal newlines, which the csv
-- module documents to change the line ends inside a cell.
abbrev pub IsOneLine : Text → Type 0
IsOneLine = All (λ c. (c ≢ 10) × (c ≢ 13))

-- Documented behaviour of the files: what was written is there, and is read back if its cells have
-- no line ends.
pub record IsDisk {S : Type 0} (disk : Disk S) : Type 0 where
  pub read-write :
      (path : Text) (rows : List (List Text)) (s : S)
      → All (All IsOneLine) rows
      → (disk.write_csv path rows s).0 ≡ ret tt
      → disk.read_csv path (disk.write_csv path rows s).1 ≡ ret rows
  pub exists-write :
      (path : Text) (rows : List (List Text)) (s : S)
      → (disk.write_csv path rows s).0 ≡ ret tt
      → disk.exists path (disk.write_csv path rows s).1 ≡ true

cells-rows : (names : List Text) → first_cells (map (λ name. name ∷ []) names) ≡ names
cells-rows [] = refl
cells-rows (name ∷ names) = ap (λ (ns : List Text). name ∷ ns) (cells-rows names)

cells-IsOneLine :
    (names : List Text) → All IsOneLine names → All (All IsOneLine) (map (λ name. name ∷ []) names)
cells-IsOneLine [] h = tt
cells-IsOneLine (name ∷ names) h = ((h.0, tt), cells-IsOneLine names h.1)

-- A result other than [] comes from the write itself.
write_worked :
    {S : Type 0} (names : List Text) (p : Outcome (Unit {0}) × S)
    → (except [] (returning names p)).0 ≢ ret []
    → (p.0 ≡ ret tt) × (except [] (returning names p) ≡ (ret names, p.1))
write_worked names (ret u, s) h = (refl, refl)
write_worked names (raise e, s) h = absurd (h refl)

directory_worked :
    {S : Type 0} (next : S → Outcome (List Text) × S) (p : Outcome (Unit {0}) × S)
    → (except [] (then_do next p)).0 ≢ ret []
    → (s : S) × (except [] (then_do next p) ≡ except [] (next s))
directory_worked next (ret u, s) h = (s, refl)
directory_worked next (raise e, s) h = absurd (h refl)

module _ {S : Type 0} (disk : Disk S) (is_disk : IsDisk disk) where
  -- The file holds the names.
  pub record Holds (path : Text) (names : List Text) (s : S) : Type 0 where
    pub there : disk.exists path s ≡ true
    pub rows : disk.read_csv path s ≡ ret (csv_rows names)

  -- A list other than [] was saved, and is the result.
  abbrev pub IsSaved : Text → List Text → Outcome (List Text) × S → Type 0
  IsSaved path names r = (r.0 ≢ ret []) → (r.0 ≡ ret names) × Holds path names r.1

  write-IsSaved :
      (path : Text) (names : List Text) (s : S)
      → All IsOneLine names
      → IsSaved path names (except [] (returning names (disk.write_csv path (csv_rows names) s)))
  write-IsSaved path names s plain h =
      let (worked, same) = write_worked names (disk.write_csv path (csv_rows names) s) h in
      subst (λ (r : Outcome (List Text) × S). (r.0 ≡ ret names) × Holds path names r.1) (sym same)
        (
          refl,
          record {
            there = is_disk.exists-write path (csv_rows names) s worked;
            rows =
                is_disk.read-write path (csv_rows names) s
                  ((omega arith, tt), cells-IsOneLine names plain) worked;
          },
        )

  save_csv-IsSaved :
      (path : Text) (names : List Text) (s : S)
      → All IsOneLine names
      → IsSaved path names (except [] (save_csv disk path names s))
  unfolding save_csv
  save_csv-IsSaved path names s plain h =
      let (s', same) =
        directory_worked (λ t. returning names (disk.write_csv path (csv_rows names) t))
          (disk.makedirs (disk.dirname path) s) h in
      subst (IsSaved path names) (sym same) (write-IsSaved path names s' plain) h

  -- The names in what the URL answers have no line ends.
  abbrev pub AreOneLine : Text → (HttpAnswer → List Text) → Type 0
  AreOneLine url names_in =
      (response : HttpAnswer) → disk.get url ≡ ret response → All IsOneLine (names_in response)

  fetch_csv-IsSaved :
      (path url : Text) (names_in : HttpAnswer → List Text) (s : S)
      → AreOneLine url names_in
      → (fetch_csv disk path url names_in s).0 ≢ ret []
      → (names : List Text) × ((fetch_csv disk path url names_in s).0 ≡ ret names)
        × Holds path names (fetch_csv disk path url names_in s).1
  unfolding fetch_csv
  fetch_csv-IsSaved path url names_in s plain h = elim (Outcome-cases (disk.get url)) [
    | inr (e, g) ↦ absurd (h (rw (g, fetch_csv) refl))
    | inl (response, g) ↦
        rw (g, fetch_csv)
          (let (worked, held) =
              save_csv-IsSaved path (names_in response) s (plain response g)
                (rw (g, fetch_csv) at h) in
            (names_in response, worked, held))
  ]

  pypi-held :
      (names : List Text) (s : S)
      → Holds (pypi_packages_path disk) names s
      → get_pypi_packages disk s ≡ (ret names, s)
  unfolding get_pypi_packages
  pypi-held names s held =
      rw (held.there, held.rows, get_pypi_packages)
        (ap (λ (n : List Text). (ret n, s)) (cells-rows names))

  rubygems-held :
      (names : List Text) (s : S)
      → Holds (rubygems_packages_path disk) names s
      → get_rubygems_packages disk s ≡ (ret names, s)
  unfolding get_rubygems_packages
  rubygems-held names s held =
      rw (held.there, held.rows, get_rubygems_packages)
        (ap (λ (n : List Text). (ret n, s)) (cells-rows names))

  -- A result that the second call on its files gives back, too.
  abbrev pub IsRead : (S → Outcome (List Text) × S) → Outcome (List Text) × S → Type 0
  IsRead get r = (names : List Text) × (r.0 ≡ ret names) × (get r.1 ≡ (ret names, r.1))

  fetched-IsRead :
      (get : S → Outcome (List Text) × S) (path url : Text) (names_in : HttpAnswer → List Text)
      (s : S)
      → ((names : List Text) (t : S) → Holds path names t → get t ≡ (ret names, t))
      → get s ≡ fetch_csv disk path url names_in s
      → AreOneLine url names_in
      → (get s).0 ≢ ret []
      → IsRead get (get s)
  fetched-IsRead get path url names_in s reads e plain h =
      let (names, worked, held) =
        fetch_csv-IsSaved path url names_in s plain
          (λ none_found. h (ap (λ (r : Outcome (List Text) × S). r.0) e ∙ none_found)) in
      subst (IsRead get) (sym e) (names, worked, reads names _ held)

  pub get_pypi_packages-again :
      (s : S)
      → disk.exists (pypi_packages_path disk) s ≡ false
      → AreOneLine (codes "https://pypi.org/simple/") (λ response. disk.find_all_a response.text)
      → (get_pypi_packages disk s).0 ≢ ret []
      → IsRead (get_pypi_packages disk) (get_pypi_packages disk s)
  unfolding get_pypi_packages
  get_pypi_packages-again s missing plain h =
      fetched-IsRead (get_pypi_packages disk) (pypi_packages_path disk)
        (codes "https://pypi.org/simple/") (λ response. disk.find_all_a response.text) s pypi-held
        (rw (missing, get_pypi_packages) refl) plain h

  pub get_rubygems_packages-again :
      (s : S)
      → disk.exists (rubygems_packages_path disk) s ≡ false
      → AreOneLine (codes "https://rubygems.org/names") (λ response. disk.splitlines response.text)
      → (get_rubygems_packages disk s).0 ≢ ret []
      → IsRead (get_rubygems_packages disk) (get_rubygems_packages disk s)
  unfolding get_rubygems_packages
  get_rubygems_packages-again s missing plain h =
      fetched-IsRead (get_rubygems_packages disk) (rubygems_packages_path disk)
        (codes "https://rubygems.org/names") (λ response. disk.splitlines response.text) s
        rubygems-held (rw (missing, get_rubygems_packages) refl) plain h

-- What a function without arguments returned once in a process, it returns again, and the files
-- stay as they are.
pub memoized-again {ℓ} :
    {S A : Type ℓ} (f : S → Outcome A × S) (c : Option A × S) (a : A)
    → (memoized f c).0 ≡ ret a
    → memoized f (memoized f c).1 ≡ (ret a, (memoized f c).1)
unfolding memoized
memoized-again f (some b, s) a h = ap (λ x. (ret x, (some b, s))) (eq_of_ret h)
memoized-again f (none, s) a h = kept_lem f (f s) a h
  where
    kept_lem :
        {S A : Type ℓ} (f : S → Outcome A × S) (r : Outcome A × S) (a : A)
        → (kept_by r).0 ≡ ret a
        → memoized f (kept_by r).1 ≡ (ret a, (kept_by r).1)
    kept_lem f (ret b, s) a h = ap (λ x. (ret x, (some b, s))) (eq_of_ret h)
    kept_lem f (raise e, s) a h = cc

-- The directory that `tempfile.mkdtemp` makes exists and has no files, and `makedirs` with
-- `exist_ok` leaves an existing directory alone.
pub record IsFreshTemp {S : Type 0} (disk : Disk S) (s : S) : Type 0 where
  pub exists_then : disk.exists (disk.mkdtemp s).0 (disk.mkdtemp s).1 ≡ true
  pub is_empty_dir : disk.walk (disk.mkdtemp s).0 (disk.mkdtemp s).1 ≡ []
  pub kept : disk.makedirs (disk.mkdtemp s).0 (disk.mkdtemp s).1 ≡ (ret tt, (disk.mkdtemp s).1)

-- `fetch_crates_package_list` finds no crate, whatever the index at crates.io holds: the temporary
-- directory exists, so the index is never cloned into it.
pub fetch_crates_package_list-empty :
    {S : Type 0} (disk : Disk S) (s : S)
    → IsFreshTemp disk s
    → fetch_crates_package_list disk s ≡ (ret [], (disk.mkdtemp s).1)
unfolding fetch_crates_package_list clone_missing get_all_crates
fetch_crates_package_list-empty disk s fresh =
    ap (then_do (clone_missing disk (disk.mkdtemp s).0)) fresh.kept
    ∙ rw (fresh.exists_then, fresh.is_empty_dir, clone_missing) refl
