-- ===== src/Api/Callback/Link.antt =====
-- Which report `job_completed_api` links to the task: the one with the greatest id.
use mathlib.Core.Option
use packamal.Api.Callback.Paths.{saved, callback_path, left_alone, unseen, broken, linked}
use packamal.World.{World}
use packamal.Models.{ReportRow, AnalysisTask, completed}
use packamal.Tasks.Reuse.{clashes}
use packamal.Table.{save_row, get_row}
use packamal.Table.Ids.{get_row-save_row_self, get_row-save_row_ne}
use packamal.Orm.{Orm}
use packamal.Api.Callback.{
  latest, Callback, put_report, is_package, on_callback_error, save_report_to_database, on_task,
  job_completed, Reply, completed_by_worker,
}
use packamal.Prelude.{
  ℕ, List, Text, ◌≡◌, Option, any_of, ◌∷◌, Option-cases, true, Bool, false, inl, arith, All, inr,
  Bool-cases, ◌<◌, some, [], eq_of_some, subst, ◌≢◌, sym, refl, ◌∙◌, ap,
}

abbrev pub max_id : List ReportRow → Option ℕ
max_id rs = Option.map (λ (r : ReportRow). r.id) (latest rs)

max_id-next :
    (r r' : ReportRow) (rs rs' : List ReportRow)
    → r.id ≡ r'.id
    → max_id rs ≡ max_id rs'
    → max_id (r ∷ rs) ≡ max_id (r' ∷ rs')
unfolding latest
max_id-next r r' rs rs' e h = elim (Option-cases (latest rs)) [
  | inl a ↦ elim (Option-cases (latest rs')) [
    | inl b ↦ ground arith
    | inr (q, b) ↦ absurd (ground arith)
  ]
  | inr (p, a) ↦ elim (Option-cases (latest rs')) [
    | inl b ↦ absurd (ground arith)
    | inr (q, b) ↦ ground arith
  ]
]

module _ (next_id : ℕ) (name version ecosystem report : Text) where
  -- An update changes no id.
  max_id-put_report :
      (rs : List ReportRow)
      → any_of (is_package name version ecosystem) rs ≡ true
      → max_id (put_report next_id name version ecosystem report rs) ≡ max_id rs
  unfolding put_report
  max_id-put_report [] h = absurd (ground arith)
  max_id-put_report (r ∷ rs) h = elim (Bool-cases (is_package name version ecosystem r)) [
    | inl e ↦ rw e (max_id-next (record r { report = report }) r rs rs refl refl)
    | inr e ↦ rw e (max_id-next r r _ rs refl (max_id-put_report rs (ground arith)))
  ]

  -- An insert has the greatest id.
  max_id-insert :
      (rs : List ReportRow)
      → any_of (is_package name version ecosystem) rs ≡ false
      → All (λ r. r.id < next_id) rs
      → max_id (put_report next_id name version ecosystem report rs) ≡ some next_id
  unfolding put_report latest
  max_id-insert [] h a = refl
  max_id-insert (r ∷ rs) h a =
      elim (Option-cases (latest (put_report next_id name version ecosystem report rs))) [
        | inl e ↦ absurd (ground (arith, max_id-insert rs))
        | inr (q, e) ↦ ground (arith, max_id-insert rs)
      ]

module _ ⦃orm : Orm⦄ (env : Callback) (now : ℕ) (task : AnalysisTask) (w : World) where
  abbrev pub known : Bool
  known = any_of (is_package task.package_name task.package_version task.ecosystem) w.reports

  max_id-saved-known :
      (report : Text) → known ≡ true → max_id (saved task report w).reports ≡ max_id w.reports
  unfolding save_report_to_database
  max_id-saved-known report k = max_id-put_report _ _ _ _ report w.reports k

  max_id-saved-new :
      (report : Text)
      → known ≡ false
      → All (λ r. r.id < w.next_report_id) w.reports
      → max_id (saved task report w).reports ≡ some w.next_report_id
  unfolding save_report_to_database
  max_id-saved-new report k a = max_id-insert _ _ _ _ report w.reports k a

  -- The answer names the report that the row is linked to.
  link_of_path :
      (url : Option Text) (r : ℕ)
      → (on_task env now task w).0 ≡ job_completed url r
      → (report : Text) × (max_id (saved task report w).reports ≡ some r)
        × ((on_task env now task w).1.tasks ≡ save_row (completed_by_worker now r url task) w.tasks)
        × (clashes task (some r) w.tasks ≡ false)
  unfolding on_callback_error save_report_to_database
  link_of_path url r h = elim (callback_path env now task w) [
    | left_alone a e ↦ absurd (cc)
    | unseen a e ↦ absurd (cc)
    | broken x a e ↦ absurd (cc)
    | linked report row url' a l c e ↦
        let same : job_completed url' row.id ≡ job_completed url r =
          sym (ap (λ (x : Reply × World). x.0) e) ∙ h in
        let same_id : row.id ≡ r = ground arith in
        let same_url : url' ≡ url = ground arith in
        (
          report,
          ap (Option.map (λ (q : ReportRow). q.id)) l ∙ ap some same_id,
          ap (λ (x : Reply × World). x.1.tasks) e ∙ rw (same_id, same_url) refl,
          subst (λ (i : ℕ). clashes task (some i) w.tasks ≡ false) same_id c,
        )
  ]

  -- A completed callback completes the row of the task, linked to the report whose id it answers
  -- and which no other row has, and changes no other row. If the package had no report and the ids
  -- of the reports are below the next one, that is the package's new report. If the package already
  -- had one, it is the report with the greatest id before the call, whichever package it belongs to.
  pub job_completed-link :
      (url : Option Text) (r : ℕ)
      → (on_task env now task w).0 ≡ job_completed url r
      → (get_row task.id (on_task env now task w).1.tasks
          ≡ some (completed_by_worker now r url task))
        × ((completed_by_worker now r url task).report ≡ some r)
        × ((completed_by_worker now r url task).status ≡ completed)
        × ((j : ℕ) → j ≢ task.id → get_row j (on_task env now task w).1.tasks ≡ get_row j w.tasks)
        × (clashes task (some r) w.tasks ≡ false)
        × (known ≡ false → All (λ q. q.id < w.next_report_id) w.reports → r ≡ w.next_report_id)
        × (known ≡ true → max_id w.reports ≡ some r)
  job_completed-link url r h =
      let (report, e, saves, alone) = link_of_path url r h in
      (
        rw saves (get_row-save_row_self task.id (completed_by_worker now r url task) w.tasks refl),
        refl,
        refl,
        λ j ne.
            rw saves (
              get_row-save_row_ne j (completed_by_worker now r url task) w.tasks (λ k. ne (sym k))),
        alone,
        λ k a. eq_of_some (sym e ∙ max_id-saved-new report k a),
        λ k. sym (max_id-saved-known report k) ∙ e,
      )
