-- ===== src/Jobs/Repository/Reading.antt =====
-- The jobs that are read from rows: what a list of rows is searched and changed for, its jobs are.
use lex_mind.Jobs.Job.{Job}
use lex_mind.Jobs.Repository.{is_pending}
use lex_mind.Jobs.Repository.Rows.{find, replace, Distinct}
use lex_mind.Jobs.Repository.Row.{
  JobRow, find_row, replace_row, DistinctRows, is_pending_row, to_row, assigned, read_payload,
  to_domain, read,
}
use lex_mind.Common.{
  ℕ, String, Bool, false, ◌≡◌, refl, ◌∙◌, ap, inl, inr, List, [], ◌∷◌, ◌++◌, ◌==◌, length, filter,
  map, Bool-cases,
}
use lex_mind.Common.Dict.{Dict}

module _ {Json : Type 0} (dumps : Dict String → Json) (loads : Json → Dict String)
    (is_blank : Json → Bool) where
  abbrev jobs : List (JobRow Json) → List Job
  jobs l = map (to_domain dumps loads is_blank) l

  pub find-map :
      (id : String) (l : List (JobRow Json))
      → find id (jobs l) ≡ read dumps loads is_blank (find_row id l)
  unfolding find find_row
  find-map id [] = refl
  find-map id (row ∷ l) = elim (Bool-cases (row.id == id)) [
    | inl same ↦ rw same refl
    | inr other ↦ rw other (find-map id l)
  ]

  pub map-replace_row :
      (row : JobRow Json) (l : List (JobRow Json))
      → jobs (replace_row row l) ≡ replace (to_domain dumps loads is_blank row) (jobs l)
  unfolding replace replace_row
  map-replace_row row [] = refl
  map-replace_row row (old ∷ l) = elim (Bool-cases (old.id == row.id)) [
    | inl same ↦ rw same refl
    | inr other ↦
        rw other (ap (λ k. to_domain dumps loads is_blank old ∷ k) (map-replace_row row l))
  ]

  pub Distinct-map : (l : List (JobRow Json)) → DistinctRows l → Distinct (jobs l)
  Distinct-map [] d = tt
  Distinct-map (row ∷ l) (fresh, d) =
      (find-map row.id l ∙ ap (read dumps loads is_blank) fresh, Distinct-map l d)

  pub filter-map :
      (l : List (JobRow Json)) → filter is_pending (jobs l) ≡ jobs (filter is_pending_row l)
  unfolding filter
  filter-map [] = refl
  filter-map (row ∷ l) = elim (Bool-cases (is_pending_row row)) [
    | inl waits ↦ rw waits (ap (λ k. to_domain dumps loads is_blank row ∷ k) (filter-map l))
    | inr other ↦ rw other (filter-map l)
  ]

  pub length-map : (l : List (JobRow Json)) → length (jobs l) ≡ length l
  length-map [] = refl
  length-map (row ∷ l) = ap (λ n. ℕ.suc n) (length-map l)

  pub map-snoc :
      (row : JobRow Json) (l : List (JobRow Json))
      → jobs (l ++ row ∷ []) ≡ jobs l ++ to_domain dumps loads is_blank row ∷ []
  map-snoc row [] = refl
  map-snoc row (x ∷ l) = ap (λ k. to_domain dumps loads is_blank x ∷ k) (map-snoc row l)

  -- a payload is read back as it was written
  module _ (loads-dumps : (p : Dict String) → loads (dumps p) ≡ p)
      (written : (p : Dict String) → is_blank (dumps p) ≡ false) where
    payload_back : (p : Dict String) → read_payload dumps loads is_blank (dumps p) ≡ p
    payload_back p = rw (written p) (loads-dumps p)

    pub to_domain-to_row :
        (job : Job) → to_domain dumps loads is_blank (to_row dumps loads is_blank job) ≡ job
    to_domain-to_row job = ap (λ p. record job { payload = p }) (payload_back job.payload)

    -- a job is read back from the row it was assigned to, where the row has the columns that are not
    -- assigned to as the job has them
    pub to_domain-assigned :
        (job : Job) (row : JobRow Json)
        → row.id ≡ job.id
        → row.workspace_id ≡ job.workspace_id
        → row.job_type ≡ job.job_type
        → row.created_at ≡ job.created_at
        → to_domain dumps loads is_blank (assigned dumps loads is_blank job row) ≡ job
    to_domain-assigned job row i w t c =
        let p = payload_back job.payload in
        λ x. record job {
          id = i x;
          workspace_id = w x;
          job_type = t x;
          created_at = c x;
          payload = p x;
        }
