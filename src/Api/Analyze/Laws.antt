-- ===== src/Api/Analyze/Laws.antt =====
-- What `analyze_api` does with a purl, and what it does if the purl has a task.
use packamal.Tasks.Saves.{message_of}
use packamal.Orm.Rows.{first-none, IsRow-select}
use packamal.Tasks.Reuse.{latest_completed, has_result}
use packamal.Api.Analyze.Paths.{
  purl_of, is_new, analyze_path, kept_tables, active, created_task, prevented, recent,
}
use packamal.Purl.{Ecosystem}
use packamal.Table.Ids.{IsRow}
use packamal.Api.Analyze.{
  Services, AnalyzeRequest, Answer, create_and_queue, analyze_api, queued_at_position, new_task,
  is_active_for, active_window, failed_to_queue, newest, race_window, fits, created_row,
  internal_error, race_prevented, shown_position,
}
use packamal.Models.{AnalysisTask, has_status, queued, pending, running}
use packamal.Orm.{Orm}
use packamal.World.{World}
use packamal.Table.{get_row, save_row, exclude}
use packamal.Table.Counts.{save_row-append, count_if-exclude_new}
use packamal.Prelude.{
  ℕ, count_if, List, ◌≡◌, All, ◌<◌, ◌++◌, Text, some, ◌∷◌, ◌+◌, [], arith, false, inl, head?, inr,
  select, refl, sym, ◌∙◌, none, ap, subst, Option-cases, eq_of_some, Bool, Bool-cases, true, leb,
  ◌-◌, ◌⊎◌, ◌≤◌, text_eq_self,
}

last-IsRow : (t : AnalysisTask) (ts : List AnalysisTask) → IsRow t (ts ++ (t ∷ []))
last-IsRow t [] = inl refl
last-IsRow t (r ∷ rs) = inr (last-IsRow t rs)

pub get_row-append :
    (t : AnalysisTask) (ts : List AnalysisTask)
    → All (λ r. r.id < t.id) ts
    → get_row t.id (ts ++ (t ∷ [])) ≡ some t
unfolding get_row
get_row-append t [] h = ground arith
get_row-append t (r ∷ rs) h = ground (arith, get_row-append t rs h.1)

get_row-append_other :
    (i : ℕ) (t r : AnalysisTask) (ts : List AnalysisTask)
    → get_row i ts ≡ some r
    → get_row i (ts ++ (t ∷ [])) ≡ some r
unfolding get_row
get_row-append_other i t r [] h = absurd (ground arith)
get_row-append_other i t r (q ∷ qs) h = ground (arith, get_row-append_other i t r qs)

abbrev pub place : World → ℕ
place w = count_if (has_status queued) w.tasks + 1

waiting-is_active :
    (purl : Text) (now : ℕ) (r : AnalysisTask)
    → r.purl ≡ purl
    → (r.status ≡ pending) ⊎ ((r.status ≡ queued) ⊎ (r.status ≡ running))
    → now ≤ r.created_at + active_window
    → is_active_for purl now r ≡ true
waiting-is_active purl now r own (inl s) young = ground (arith, text_eq_self purl)
waiting-is_active purl now r own (inr (inl s)) young = ground (arith, text_eq_self purl)
waiting-is_active purl now r own (inr (inr s)) young = ground (arith, text_eq_self purl)

abbrev is_position : Answer → Bool
is_position (queued_at_position i p) = true
is_position _ = false

module _ ⦃orm : Orm⦄ (services : Services) (now : ℕ) (request : AnalyzeRequest) (w : World) where
  abbrev pub analyzed : Answer × World
  analyzed = analyze_api services now request w

  abbrev pub row_of : Text → ℕ → Text × Text × Ecosystem → AnalysisTask
  row_of purl priority info =
      new_task now (services.meanwhile w).next_id request.api_key purl priority info
        (place (services.meanwhile w))

  abbrev pub world_of : Text → ℕ → Text × Text × Ecosystem → World
  world_of purl priority info = record (services.meanwhile w) {
    tasks = (services.meanwhile w).tasks ++ (row_of purl priority info ∷ []);
    next_id = (services.meanwhile w).next_id + 1;
    published = ((services.meanwhile w).next_id, priority) ∷ (services.meanwhile w).published;
  }

  -- The world in which the task is created, after what other handlers did meanwhile.
  abbrev pub before : World
  before = services.meanwhile w

  module _ (purl : Text) (priority : ℕ) (info : Text × Text × Ecosystem)
      (fresh : All (λ r. r.id < before.next_id) before.tasks) where
    abbrev created : Answer × World
    created = create_and_queue services now request.api_key purl priority info before

    -- A creation that answers with a position.
    data Created (x : Answer × World) : Type 0 where
      sent :
          x ≡ (queued_at_position before.next_id (place before), world_of purl priority info)
          → Created x
      other : (a : Answer) → is_position a ≡ false → x.0 ≡ a → Created x

    created_lem : Created created
    unfolding create_and_queue
    created_lem = elim (Bool-cases (fits purl info)) [
      | inr f ↦ other (internal_error orm.data_error) refl (rw (f, create_and_queue) refl)
      | inl f ↦ elim (Option-cases (services.broker before.next_id)) [
        | inr (x, b) ↦
            other (failed_to_queue (message_of x)) refl (rw (f, create_and_queue) (rw b refl))
        | inl b ↦ sent (
            rw (f, create_and_queue)
              (rw b (λ i. (
                queued_at_position before.next_id (counted i),
                record before {
                  tasks = appended i;
                  next_id = before.next_id + 1;
                  published = (before.next_id, priority) ∷ before.published;
                },
              ))))
      ]
    ]
      where
        row : ℕ → AnalysisTask
        row n = new_task now before.next_id request.api_key purl priority info n

        start : AnalysisTask
        start = created_row now before.next_id request.api_key purl priority info

        counted :
            count_if (has_status queued) (exclude before.next_id (before.tasks ++ (start ∷ []))) + 1
            ≡ place before
        counted =
            ap (λ n. n + 1) (count_if-exclude_new (has_status queued) start before.tasks fresh)

        appended :
            save_row
              (row (
                count_if (has_status queued) (exclude before.next_id (before.tasks ++ (start ∷ [])))
                + 1))
              (before.tasks ++ (start ∷ []))
            ≡ before.tasks ++ (row (place before) ∷ [])
        appended =
            save_row-append start _ before.tasks refl fresh
            ∙ ap (λ n. before.tasks ++ (row n ∷ [])) counted

  -- What a request that queued a task did.
  pub record Queued (i position : ℕ) : Type 0 where
    pub purl : Text
    pub priority : ℕ
    pub info : Text × Text × Ecosystem
    pub named : purl_of request ≡ some (purl, priority)
    pub unseen : head? (orm.order_by latest_completed (select (has_result purl) w.tasks)) ≡ none
    pub idle : active services now purl w ≡ none
    pub unraced : recent services now purl before ≡ none
    pub result : analyzed.1 ≡ world_of purl priority info
    pub same_id : i ≡ before.next_id
    pub same_place : position ≡ place before

  Queued-of_path :
      (i position : ℕ)
      → All (λ r. r.id < before.next_id) before.tasks
      → analyzed.0 ≡ queued_at_position i position
      → Queued i position
  Queued-of_path i position fresh h = elim (analyze_path services now request w) [
    | kept_tables a k e ↦ absurd (new_answer a k (sym h ∙ ap (λ (x : Answer × World). x.0) e))
    | prevented purl priority t n a r e ↦ absurd (
        other_answer (race_prevented t.id t.status (shown_position t)) refl
          (sym h ∙ ap (λ (x : Answer × World). x.0) e))
    | created_task purl priority info n c a r e ↦ elim (created_lem purl priority info fresh) [
      | other b k d ↦ absurd (other_answer b k (sym h ∙ (ap (λ (x : Answer × World). x.0) e ∙ d)))
      | sent d ↦
          let answer = sym h ∙ ap (λ (y : Answer × World). y.0) (e ∙ d) in
          record {
            purl = purl;
            priority = priority;
            info = info;
            named = n;
            unseen = c;
            idle = a;
            unraced = r;
            result = ap (λ (y : Answer × World). y.1) (e ∙ d);
            same_id = ap (λ (y : Answer). id_of y) answer;
            same_place = ap (λ (y : Answer). place_of y) answer;
          }
    ]
  ]
    where
      id_of : Answer → ℕ
      id_of (queued_at_position i p) = i
      id_of _ = 0

      place_of : Answer → ℕ
      place_of (queued_at_position i p) = p
      place_of _ = 0

      other_answer : (a : Answer) → is_position a ≡ false → queued_at_position i position ≡ a → ⊥
      other_answer a k e = ground arith

      new_answer : (a : Answer) → is_new a ≡ false → queued_at_position i position ≡ a → ⊥
      new_answer a k e = ground arith

  -- If a request queued a task, and ids are below the next one when it is created, then the task has
  -- that id and the place that is answered, which is one more than the number of queued rows; its
  -- row is queued with the purl of the request, all other rows are as the other handlers left them,
  -- and its id was sent to Celery. When the request came, no row was a completed task with a report
  -- for the purl, nor an active one, and none was active and younger than a minute when the task was
  -- created.
  pub analyze_api-queued :
      (i position : ℕ)
      → All (λ r. r.id < before.next_id) before.tasks
      → analyzed.0 ≡ queued_at_position i position
      → (purl : Text) × (priority : ℕ) × (row : AnalysisTask) × (purl_of request
          ≡ some (purl, priority))
        × (position ≡ count_if (has_status queued) before.tasks + 1)
        × (get_row i analyzed.1.tasks ≡ some row)
        × ((row.status ≡ queued) × (row.purl ≡ purl) × (row.queue_position ≡ some position))
        × ((j : ℕ) (r : AnalysisTask)
            → get_row j before.tasks ≡ some r
            → get_row j analyzed.1.tasks ≡ some r)
        × (analyzed.1.published ≡ (i, priority) ∷ before.published)
        × ((r : AnalysisTask)
            → IsRow r w.tasks
            → (has_result purl r ≡ false) × (is_active_for purl now r ≡ false))
        × ((r : AnalysisTask)
            → IsRow r before.tasks
            → is_active_for purl now r ≡ true
            → r.created_at < now - race_window)
  analyze_api-queued i position fresh h =
      let q = Queued-of_path i position fresh h in
      let row = row_of q.purl q.priority q.info in
      (
        q.purl,
        q.priority,
        row,
        q.named,
        q.same_place,
        rw (q.result, q.same_id) (get_row-append row before.tasks fresh),
        (refl, refl, ap some (sym q.same_place)),
        λ j r g. rw q.result (get_row-append_other j row r before.tasks g),
        rw (q.result, q.same_id) refl,
        λ r m. (
          first-none latest_completed (has_result q.purl) w.tasks q.unseen r m,
          first-none newest (is_active_for q.purl now) w.tasks q.idle r m,
        ),
        λ r m a.
            let old =
              first-none newest (λ t. leb (now - race_window) t.created_at)
                (select (is_active_for q.purl now) before.tasks) q.unraced r
                (IsRow-select (is_active_for q.purl now) r before.tasks m a) in
            ground arith,
      )

  -- A request for a purl of which some task is pending, queued or running and was created within the
  -- active window creates no task, leaves the tables as they are and sends nothing, whatever the
  -- broker and the report store do. A submitted task is none of these.
  pub analyze_api-again :
      (purl : Text) (priority : ℕ) (r : AnalysisTask)
      → purl_of request ≡ some (purl, priority)
      → IsRow r w.tasks
      → r.purl ≡ purl
      → (r.status ≡ pending) ⊎ ((r.status ≡ queued) ⊎ (r.status ≡ running))
      → now ≤ r.created_at + active_window
      → (analyzed.1 ≡ w) × (is_new analyzed.0 ≡ false)
  analyze_api-again purl priority r named here own waits young =
      elim (analyze_path services now request w) [
        | kept_tables a k e ↦
            (ap (λ (x : Answer × World). x.1) e, ap (λ (x : Answer × World). is_new x.0) e ∙ k)
        | prevented purl' p t n a r' e ↦
            absurd (clash purl' (ap (λ (x : Text × ℕ). x.0) (eq_of_some (sym named ∙ n))) a)
        | created_task purl' p info n c a r' e ↦
            absurd (clash purl' (ap (λ (x : Text × ℕ). x.0) (eq_of_some (sym named ∙ n))) a)
      ]
    where
      clash : (purl' : Text) → purl ≡ purl' → active services now purl' w ≡ none → ⊥
      clash purl' same a =
          let idle = first-none newest (is_active_for purl' now) w.tasks a r here in
          let busy =
            subst (λ (x : Text). is_active_for x now r ≡ true) same
              (waiting-is_active purl now r own waits young) in
          cc (idle, busy)
