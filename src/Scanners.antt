-- ===== src/Scanners.antt =====
-- backend/package_analysis/services/execution_service.py: the runners of OSS Gadget, bandit4mal,
-- LastPyMile and py2src. Processes, files and the tools are parameters; log lines are left out.
pub mod Bandit
use packamal.Json.{
  Json, subscript, get_or_object, is_true, ◌>>=◌, as_text, first_item, str, get_member, iterate,
}
use packamal.Tasks.Outcome.{Outcome, ret, raise}
use packamal.Prelude.{
  List, Text, Option, ◌∷◌, some, codes, if◌then◌else◌, Bool, [], text_eq, ℕ, is_some, ◌++◌,
  strip_prefix, none, split, ◌≡◌, refl,
}

pub record Tools (S : Type 0) : Type 0 where
  pub lower : Text → Text
  pub join_path : Text → Text → Text
  -- `settings.ANALYSIS_RESULTS_DIR` and `tempfile.gettempdir()`
  pub analysis_results_dir : Text
  pub tempdir : Text
  pub exists : Text → S → Bool
  pub makedirs : Text → S → Outcome (Unit {0}) × S
  -- `subprocess.run(line, shell=True, check=True, ...)`: a CalledProcessError is an exception too
  pub run_shell : Text → S → Outcome (Unit {0}) × S
  -- `subprocess.run(command, check=False, ...)`
  pub run_command : List Text → S → Outcome ℕ × S
  -- `json.load` of a file
  pub read_json : Text → S → Outcome Json
  -- `shutil.which`
  pub which : Text → Option Text
  -- `Utils.rmtree`
  pub rmtree : Text → S → Outcome (Unit {0}) × S
  -- `list(set(xs))`, in the order that the set has
  pub list_of_set : List Text → List Text
  -- `str(n)`
  pub decimal : ℕ → Text

unfoldable pub transfer_ecosystem : Text → Text
transfer_ecosystem ecosystem =
    if text_eq ecosystem (codes "crates.io")
    then codes "cargo"
    else if text_eq ecosystem (codes "rubygems")
    then codes "gem"
    else if text_eq ecosystem (codes "packagist")
    then codes "composer"
    else ecosystem

-- `" ".join(command)` of the two OSS Gadget tools: the shell gets the name as it is.
unfoldable pub oss_line : (tool ecosystem_norm package_name file_save_name : Text) → Text
oss_line tool ecosystem_norm package_name file_save_name =
    codes "docker run --rm -v pack-a-mal_prd_analysis_results:/tmp/analysis-results "
    ++ (codes "pakaremon/ossgadget:latest bash -c \"mkdir -p /tmp/analysis-results/"
        ++ (tool
            ++ (codes " && /usr/share/dotnet/dotnet /app/src/"
                ++ (tool
                    ++ (codes "/bin/Release/net8.0/"
                        ++ (tool
                            ++ (codes ".dll pkg:"
                                ++ (ecosystem_norm
                                    ++ (codes "/"
                                        ++ (package_name
                                            ++ (codes " --format sarifv2 -o /tmp/analysis-results/"
                                                ++ (tool
                                                    ++ (codes "/"
                                                        ++ (file_save_name
                                                            ++ codes "\""))))))))))))))

-- `data["runs"][0]["results"]`
abbrev pub results_of : Json → Outcome (List Json)
results_of document =
    subscript (codes "runs") document >>= first_item >>= subscript (codes "results") >>= iterate

-- `candidate.get("message", {}).get("text")`, none if it is falsy
abbrev pub message_text : Json → Outcome (Option Json)
message_text candidate = get_or_object (codes "message") candidate >>= get_member (codes "text")

abbrev pub truthy_json : Option Json → Option Json
truthy_json none = none
truthy_json (some v) = if is_true v then some v else none

-- The loop of `run_oss_find_source`: what an exception leaves is kept. The message of a SARIF result
-- is a text, so another value is passed over.
unfoldable pub source_texts : List Json → List Text
source_texts [] = []
source_texts (candidate ∷ candidates) =
    let rest = source_texts candidates in
    if is_true candidate
    then elim (message_text candidate) [
      | raise e ↦ []
      | ret msg ↦ elim (truthy_json msg) [ some (str t) ↦ t ∷ rest | _ ↦ rest ]
    ]
    else rest

-- `.split("/")[-1]`
abbrev pub last_part : List Text → Text
last_part [] = []
last_part (t ∷ []) = t
last_part (t ∷ (u ∷ ts)) = last_part (u ∷ ts)

abbrev pub squat_name : Json → Outcome Text
squat_name candidate =
    subscript (codes "locations") candidate
    >>= first_item
    >>= subscript (codes "physicalLocation")
    >>= subscript (codes "address")
    >>= subscript (codes "name")
    >>= as_text
    >>= (λ name. ret (last_part (split b'/' name)))

abbrev pub is_squat : Text → Bool
is_squat text = is_some (strip_prefix (codes "Potential Squat candidate") text)

abbrev pub or_skip : Outcome Text → List Text → List Text
or_skip (ret name) names = name ∷ names
or_skip (raise e) names = names

-- The loop of `run_oss_squats`.
unfoldable pub squat_names : List Json → Outcome (List Text)
squat_names [] = ret []
squat_names (candidate ∷ candidates) =
    let rest = squat_names candidates in
    subscript (codes "message") candidate >>= subscript (codes "text") >>= as_text >>= (λ text.
      rest
      >>= (λ names. ret (if is_squat text then or_skip (squat_name candidate) names else names)))

-- The next step with the result of this one, unless this one raised.
abbrev pub and_with {ℓ κ} :
    {S A : Type ℓ} {B : Type κ} → (A → S → Outcome B × S) → Outcome A × S → Outcome B × S
and_with next (ret a, s) = next a s
and_with next (raise e, s) = (raise e, s)

-- The parts of two steps that returned.
pub and_with_ret :
    {S A B : Type 0} (next : A → S → Outcome B × S) (p : Outcome A × S) {b : B}
    → (and_with next p).0 ≡ ret b
    → (a : A) × (s : S) × (p ≡ (ret a, s)) × (and_with next p ≡ next a s)
and_with_ret next (ret a, s) h = (a, s, refl, refl)
and_with_ret next (raise e, s) h = cc

module _ {S : Type 0} (tools : Tools S) where
  abbrev pub result_path : Text → Text → Text
  result_path tool file_save_name =
      tools.join_path (tools.join_path tools.analysis_results_dir tool) file_save_name

  abbrev pub found_sources : Text → S → List Text
  found_sources dst s =
      if tools.exists dst s
      then elim (tools.read_json dst s >>= results_of) [
        | raise e ↦ []
        | ret candidates ↦ source_texts candidates
      ]
      else []

  unfoldable pub run_oss_find_source : Text → Text → S → Outcome (List Text) × S
  unfolding transfer_ecosystem oss_line source_texts
  run_oss_find_source package_name ecosystem s =
      let tool = codes "oss-find-source" in
      let file_save_name = package_name ++ codes ".sarif" in
      and_with
        (λ _ s1.
          and_with
            (λ _ s2.
              (ret (tools.list_of_set (found_sources (result_path tool file_save_name) s2)), s2))
            (tools.run_shell
              (oss_line tool (transfer_ecosystem ecosystem) package_name file_save_name) s1))
        (tools.makedirs (tools.join_path tools.analysis_results_dir tool) s)

  abbrev pub found_squats : Text → S → Outcome (List Text)
  found_squats dst s =
      if tools.exists dst s then tools.read_json dst s >>= results_of >>= squat_names else ret []

  unfoldable pub run_oss_squats : Text → Text → S → Outcome (List Text) × S
  unfolding transfer_ecosystem oss_line squat_names
  run_oss_squats package_name ecosystem s =
      let tool = codes "oss-find-squats" in
      let ecosystem_norm = transfer_ecosystem ecosystem in
      let file_save_name = package_name ++ (codes "_" ++ (ecosystem_norm ++ codes ".sarif")) in
      and_with
        (λ _ s1.
          and_with (λ _ s2. (found_squats (result_path tool file_save_name) s2, s2))
            (tools.run_shell (oss_line tool ecosystem_norm package_name file_save_name) s1))
        (tools.makedirs (tools.join_path tools.analysis_results_dir tool) s)
