-- ===== src/Ingestion/Pipeline/Accounts.antt =====
-- The accounts of a run: each file that was processed has one result, which the statistics count.
use mathlib.Core.List.{append_assoc}
use lex_mind.Ingestion.Job.{JobState, cancelled, transition_to, is_terminal, can_transition}
use lex_mind.Ingestion.Pipeline.{
  Ingest, Surroundings, FileResult, FileOutcome, IngestionStatistics, imported, duplicate,
  unsupported, rejected, outcome_eq, count, transition, cancel_job, emit, IngestionEvent,
}
use lex_mind.Common.{
  IsDistinct, ℕ, ◌+◌, String, Bool, true, ◌≡◌, refl, inl, inr, Option, none, some, List, [], ◌∷◌,
  ◌++◌, Bool-cases, length, contains, if◌then◌else◌, sym, ap, ◌∙◌, arith, filter,
}

abbrev pub sum_list : Option String → List String
sum_list none = []
sum_list (some c) = c ∷ []

abbrev pub sum_if : Bool → FileResult → List String
sum_if b r = if b then sum_list r.checksum else []

-- the checksums of the results with an outcome
unfoldable pub sums_of : FileOutcome → List FileResult → List String
sums_of o [] = []
sums_of o (r ∷ l) = sum_if (outcome_eq r.outcome o) r ++ sums_of o l

-- what the accounts are about
pub record Ledger : Type 0 where
  pub files : List FileResult
  pub statistics : IngestionStatistics
  pub seen : List String
  pub files_failed : ℕ
  pub files_processed : ℕ

abbrev pub ledger : Ingest → Ledger
ledger s = record {
  files = s.files;
  statistics = s.statistics;
  seen = s.seen;
  files_failed = s.job.files_failed;
  files_processed = s.job.files_processed;
}

pub record IsAccounted (l : Ledger) : Type 0 where
  pub imported_count : count imported l.files ≡ l.statistics.imported
  pub duplicate_count : count duplicate l.files ≡ l.statistics.duplicates
  pub unsupported_count : count unsupported l.files ≡ l.statistics.unsupported
  pub rejected_count : count rejected l.files ≡ l.statistics.errors
  pub failed_count : l.files_failed ≡ l.statistics.errors
  pub all_counted :
      length l.files
      ≡ l.statistics.imported + l.statistics.duplicates + l.statistics.unsupported
        + l.statistics.errors
  -- no content is imported twice, and each duplicate is one of a file that was imported
  pub distinct : IsDistinct (sums_of imported l.files)
  pub seen : (c : String) → contains l.seen c ≡ contains (sums_of imported l.files) c
  pub covered :
      (c : String)
      → contains (sums_of duplicate l.files) c ≡ true
      → contains (sums_of imported l.files) c ≡ true

-- between two files
abbrev pub IsBalanced : Ledger → Type 0
IsBalanced l = IsAccounted l × (l.files_processed ≡ length l.files)

pub sums_of-append :
    (o : FileOutcome) (l k : List FileResult) → sums_of o (l ++ k) ≡ sums_of o l ++ sums_of o k
unfolding sums_of
sums_of-append o [] k = refl
sums_of-append o (r ∷ l) k =
    ap (λ t. sum_if (outcome_eq r.outcome o) r ++ t) (sums_of-append o l k)
    ∙ sym (append_assoc (sum_if (outcome_eq r.outcome o) r) (sums_of o l) (sums_of o k))

pub count-snoc :
    (o : FileOutcome) (l : List FileResult) (r : FileResult)
    → count o (l ++ r ∷ []) ≡ count o l + (if outcome_eq r.outcome o then 1 else 0)
unfolding count filter
count-snoc o [] r = ground arith
count-snoc o (x ∷ l) r = ground (arith, count-snoc o l r)

-- one more result
abbrev pub entered : FileResult → IngestionStatistics → List String → ℕ → Ledger → Ledger
entered r st seen files_failed l = record l {
  files = l.files ++ r ∷ [];
  statistics = st;
  seen = seen;
  files_failed = files_failed;
}

abbrev pub plain_result : FileOutcome → String → (mime_type message : Option String) → FileResult
plain_result outcome path mime_type message = record {
  path = path;
  outcome = outcome;
  checksum = none;
  mime_type = mime_type;
  message = message;
}

abbrev pub summed_result : FileOutcome → String → (checksum : String) → Option String → FileResult
summed_result outcome path checksum mime_type = record {
  path = path;
  outcome = outcome;
  checksum = some checksum;
  mime_type = mime_type;
  message = none;
}

module _ (w : Surroundings) where
  pub transition-ledger :
      (target : JobState) (s : Ingest) → ledger (transition w target s).1 ≡ ledger s
  unfolding transition transition_to
  transition-ledger target s = elim (Bool-cases (can_transition s.job.state target)) [
    | inl may ↦ rw may refl
    | inr not_so ↦ rw not_so refl
  ]

  pub cancel_job-ledger : (s : Ingest) → ledger (cancel_job w s).1 ≡ ledger s
  unfolding cancel_job
  cancel_job-ledger s = elim (Bool-cases (is_terminal s.job)) [
    | inl over ↦ rw over refl
    | inr live ↦ rw live (transition-ledger cancelled s)
  ]

  pub emit-ledger : (e : IngestionEvent) (s : Ingest) → ledger (emit w e s) ≡ ledger s
  unfolding emit
  emit-ledger e s = elim (Bool-cases (w.cancels (length s.emitted))) [
    | inl stop ↦ rw stop (cancel_job-ledger (record s { emitted = s.emitted ++ e ∷ [] }))
    | inr on ↦ rw on refl
  ]
