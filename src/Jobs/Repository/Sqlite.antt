-- ===== src/Jobs/Repository/Sqlite.antt =====
-- backend/lexmind/scheduler/job_repository.py, `SqliteJobRepositoryImpl`. SQLAlchemy and SQLite
-- are parameters: a table of rows with a primary key, and a query that sorts; so is the JSON text of the
-- payload column.
use mathlib.Core.List.{Perm, Pairwise}
use mathlib.Core.List.Perm
use mathlib.Core.List.Pairwise
use native.Mathlib.Bridge.{le_prop}
use lex_mind.Jobs.Job.{Job, Error, JobStatus, integrity_error, entity_not_found, status_eq}
use lex_mind.Jobs.Repository.{JobRepository, SameOrigin, IsJobRepository, is_pending}
use lex_mind.Jobs.Repository.Rows.{find, replace}
use lex_mind.Jobs.Repository.Row.{
  JobRow, find_row, replace_row, remove_row, DistinctRows, is_pending_row, id_of_find_row,
  find_row-remove_row, to_row, assigned, to_domain, read,
}
use lex_mind.Jobs.Repository.Reading.{
  find-map, map-replace_row, Distinct-map, filter-map, length-map, map-snoc, to_domain-to_row,
  to_domain-assigned,
}
use lex_mind.Common.{
  ℕ, String, ◌≡◌, sym, ◌∙◌, ap, subst, inl, inr, Bool, false, Option, none, some, List, [], ◌∷◌,
  ◌++◌, arith, ◌==◌, if◌then◌else◌, is_some, length, filter, map, Option-cases,
}
use lex_mind.Common.Dict.{Dict}
use lex_mind.Common.Effect.{ok, err, Outcome}
use lex_mind.Common.Int.{ℤ, pos, ◌≤ℤ◌}

pub record Database : Type 1 where
  -- the text of the payload column, with json.dumps, json.loads and the test for an empty text
  pub Json : Type 0
  pub dumps : Dict String → Json
  pub loads : Json → Dict String
  pub is_blank : Json → Bool
  pub Table : Type 0
  -- the rows, in the order of a query that does not sort
  pub rows : Table → List (JobRow Json)
  -- session.get(JobRow, id)
  pub get : String → Table → Option (JobRow Json)
  -- session.add(row) and the commit; `none` is an IntegrityError
  pub add : JobRow Json → Table → Option Table
  -- the commit of a loaded row whose attributes were assigned to
  pub flush : JobRow Json → Table → Table
  -- session.delete(row) and the commit
  pub delete : String → Table → Table
  -- .order_by(key.desc())
  pub order_by_desc : (JobRow Json → ℤ) → List (JobRow Json) → List (JobRow Json)

pub record IsDatabase (d : Database) : Type 0 where
  pub loads-dumps : (p : Dict String) → d.loads (d.dumps p) ≡ p
  pub written : (p : Dict String) → d.is_blank (d.dumps p) ≡ false
  pub primary_key : (t : d.Table) → DistinctRows (d.rows t)
  pub get_lem : (id : String) (t : d.Table) → d.get id t ≡ find_row id (d.rows t)
  pub add_fresh :
      (row : JobRow d.Json) (t : d.Table)
      → find_row row.id (d.rows t) ≡ none
      → (u : d.Table) × (d.add row t ≡ some u) × (d.rows u ≡ d.rows t ++ row ∷ [])
  pub add_taken :
      (row old : JobRow d.Json) (t : d.Table)
      → find_row row.id (d.rows t) ≡ some old
      → d.add row t ≡ none
  pub flush_lem :
      (row old : JobRow d.Json) (t : d.Table)
      → find_row row.id (d.rows t) ≡ some old
      → d.rows (d.flush row t) ≡ replace_row row (d.rows t)
  pub delete_lem : (id : String) (t : d.Table) → d.rows (d.delete id t) ≡ remove_row id (d.rows t)
  pub order_by_desc-perm :
      (key : JobRow d.Json → ℤ) (l : List (JobRow d.Json)) → Perm (d.order_by_desc key l) l
  pub order_by_desc-sorted :
      (key : JobRow d.Json → ℤ) (l : List (JobRow d.Json))
      → Pairwise (λ a b. key b ≤ℤ key a) (d.order_by_desc key l)

module _ (d : Database) where
  abbrev from_job : Job → JobRow d.Json
  from_job job = to_row d.dumps d.loads d.is_blank job

  abbrev job_of : JobRow d.Json → Job
  job_of row = to_domain d.dumps d.loads d.is_blank row

  abbrev added : Option d.Table → Outcome Error d.Table
  added none = err integrity_error
  added (some t) = ok t

  unfoldable pub create : Job → d.Table → Outcome Error d.Table
  create job t = added (d.add (from_job job) t)

  abbrev updated : Job → d.Table → Option (JobRow d.Json) → Outcome Error d.Table
  updated job t none = err entity_not_found
  updated job t (some row) = ok (d.flush (assigned d.dumps d.loads d.is_blank job row) t)

  unfoldable pub update : Job → d.Table → Outcome Error d.Table
  update job t = updated job t (d.get job.id t)

  unfoldable pub get_by_id : String → d.Table → Option Job
  get_by_id id t = read d.dumps d.loads d.is_blank (d.get id t)

  unfoldable pub list_pending : d.Table → List Job
  list_pending t =
      map job_of (d.order_by_desc (λ row. row.priority) (filter is_pending_row (d.rows t)))

  unfoldable pub list_by_workspace : String → d.Table → List Job
  list_by_workspace workspace_id t = map job_of (
      d.order_by_desc (λ row. pos row.created_at)
        (filter (λ row. row.workspace_id == workspace_id) (d.rows t)))

  unfoldable pub list_by_status : JobStatus → d.Table → List Job
  list_by_status status t = map job_of (filter (λ row. status_eq row.status status) (d.rows t))

  unfoldable pub delete : String → d.Table → Outcome Error d.Table
  delete id t = if is_some (d.get id t) then ok (d.delete id t) else err entity_not_found

  unfoldable pub exists : String → d.Table → Bool
  exists id t = is_some (d.get id t)

  unfoldable pub count_pending : d.Table → ℕ
  count_pending t = length (filter is_pending_row (d.rows t))

  abbrev pub sqlite : JobRepository
  sqlite = record {
    Store = d.Table;
    rows = λ t. map job_of (d.rows t);
    create = create;
    update = update;
    get_by_id = get_by_id;
    list_pending = list_pending;
    count_pending = count_pending;
  }

  module _ (laws : IsDatabase d) where
    found_row :
        (id : String) (t : d.Table)
        → find id (map job_of (d.rows t)) ≡ read d.dumps d.loads d.is_blank (d.get id t)
    found_row id t =
        find-map d.dumps d.loads d.is_blank id (d.rows t)
        ∙ ap (read d.dumps d.loads d.is_blank) (sym (laws.get_lem id t))

    create_new :
        (job : Job) (t : d.Table)
        → find job.id (map job_of (d.rows t)) ≡ none
        → (u : d.Table) × (create job t ≡ ok u)
          × (map job_of (d.rows u) ≡ map job_of (d.rows t) ++ job ∷ [])
    unfolding create
    create_new job t absent = elim (Option-cases (d.get job.id t)) [
      | inr (row, there) ↦ absurd (ground (arith, found_row job.id t, there))
      | inl none_there ↦
          let (u, done, rows) =
            laws.add_fresh (from_job job) t (sym (laws.get_lem job.id t) ∙ none_there) in
          (
            u,
            ap added done,
            ap (map job_of) rows
                ∙ map-snoc d.dumps d.loads d.is_blank (from_job job) (d.rows t)
                ∙ ap (λ k. map job_of (d.rows t) ++ k ∷ [])
                    (to_domain-to_row d.dumps d.loads d.is_blank laws.loads-dumps laws.written job),
          )
    ]

    -- all columns but those that no method of a job assigns to are written
    update_known :
        (job old : Job) (t : d.Table)
        → find job.id (map job_of (d.rows t)) ≡ some old
        → SameOrigin job old
        → (u : d.Table) × (update job t ≡ ok u)
          × (map job_of (d.rows u) ≡ replace job (map job_of (d.rows t)))
    unfolding update
    update_known job old t present (workspace, type, made) = elim (Option-cases (d.get job.id t)) [
      | inl none_there ↦ absurd (ground (arith, found_row job.id t, none_there))
      | inr (row, there) ↦
          let held = sym (laws.get_lem job.id t) ∙ there in
          let same : job_of row ≡ old = ground (arith, found_row job.id t, there) in
          let id = id_of_find_row row job.id (d.rows t) held in
          let row' = assigned d.dumps d.loads d.is_blank job row in
          let back =
            to_domain-assigned d.dumps d.loads d.is_blank laws.loads-dumps laws.written job row id
              (ap (λ (k : Job). k.workspace_id) same ∙ sym workspace)
              (ap (λ (k : Job). k.job_type) same ∙ sym type)
              (ap (λ (k : Job). k.created_at) same ∙ sym made) in
          (
            d.flush row' t,
            ap (updated job t) there,
            ap (map job_of) (
                  laws.flush_lem row' row t
                    (subst (λ i. find_row i (d.rows t) ≡ some row) (sym id) held))
                ∙ map-replace_row d.dumps d.loads d.is_blank row' (d.rows t)
                ∙ ap (λ k. replace k (map job_of (d.rows t))) back,
          )
    ]

    list_pending-permutes :
        (t : d.Table) → Perm (list_pending t) (filter is_pending (map job_of (d.rows t)))
    unfolding list_pending
    list_pending-permutes t =
        subst (λ l. Perm (list_pending t) l)
          (sym (filter-map d.dumps d.loads d.is_blank (d.rows t)))
          (Perm.map job_of (laws.order_by_desc-perm _ _))

    list_pending-descends :
        (t : d.Table) → Pairwise (λ a b. b.priority ≤ℤ a.priority) (list_pending t)
    unfolding list_pending
    list_pending-descends t =
        Pairwise.map' job_of (λ a b. le_prop) (laws.order_by_desc-sorted (λ row. row.priority) _)

    -- The SQLite repository keeps the contract that the queue, the executor and the scheduler rely on, over
    -- any database of rows that keeps its own: the jobs in the store are those that are read from the rows.
    -- `create` of a job whose id is free adds it. `update` of a stored job puts it in the place of the stored
    -- one, where it has the workspace, the type and the time of creation of that one, which are not written.
    -- `get_by_id` finds a job by its id, which no two have. `list_pending` gives the pending jobs by
    -- descending priority, and `count_pending` their number.
    pub sqlite-IsJobRepository : IsJobRepository sqlite
    unfolding get_by_id count_pending
    sqlite-IsJobRepository = record {
      rows_distinct = λ t. Distinct-map d.dumps d.loads d.is_blank (d.rows t) (laws.primary_key t);
      get_by_id_lem = λ id t. sym (found_row id t);
      create_absent = create_new;
      update_present = update_known;
      list_pending-perm = list_pending-permutes;
      list_pending-sorted = list_pending-descends;
      count_pending_lem = λ t.
          sym (length-map d.dumps d.loads d.is_blank (filter is_pending_row (d.rows t)))
          ∙ ap length (sym (filter-map d.dumps d.loads d.is_blank (d.rows t)));
    }

  -- What the other calls of the repository give: a write that meets the wrong row raises, and a
  -- deleted job is gone while the others stay.
  create_taken :
      IsDatabase d
      → (job old : Job) (t : d.Table) → get_by_id job.id t ≡ some old
      → create job t ≡ err integrity_error
  unfolding create get_by_id
  create_taken laws job old t taken = elim (Option-cases (d.get job.id t)) [
    | inl none_there ↦ absurd (ground (arith, none_there))
    | inr (row, there) ↦
        ap added (laws.add_taken (from_job job) row t (sym (laws.get_lem job.id t) ∙ there))
  ]

  update_missing :
      (job : Job) (t : d.Table) → get_by_id job.id t ≡ none → update job t ≡ err entity_not_found
  unfolding update get_by_id
  update_missing job t missing = ground (arith, missing)

  get_by_id-delete :
      IsDatabase d
      → (id k : String) (t u : d.Table) → delete id t ≡ ok u
      → get_by_id k u ≡ (if id == k then none else get_by_id k t)
  unfolding delete get_by_id
  get_by_id-delete laws id k t u done = ground (
    arith,
    laws.get_lem k u,
    laws.get_lem k t,
    laws.delete_lem id t,
    find_row-remove_row id k (d.rows t) (laws.primary_key t),
  )
