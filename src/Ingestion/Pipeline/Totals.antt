-- ===== src/Ingestion/Pipeline/Totals.antt =====
-- The accounts through the loop over the files, and of a whole run.
use lex_mind.Ingestion.Pipeline.{
  Ingest, Surroundings, FileResult, emit, IngestionEvent, add_file, DiscoveredFile, reject,
  pass_over, register, hashed, checked, progressed, file_validated, import_progress,
}
use lex_mind.Ingestion.Pipeline.Entries.{
  enter_rejected, enter_unsupported, enter_duplicate, enter_imported,
}
use lex_mind.Common.{
  String, ◌≡◌, refl, inl, inr, some, List, [], ◌∷◌, ◌++◌, Bool-cases, length, contains, sym, ap,
  ◌∙◌, subst, arith, length-append, suc, ℕ, ◌+◌,
}
use lex_mind.Common.Effect.{ok, err, Outcome}
use lex_mind.Ingestion.Pipeline.Accounts.{IsAccounted, Ledger, ledger, emit-ledger, IsBalanced}

length-snoc : (l : List FileResult) (r : FileResult) → length (l ++ r ∷ []) ≡ suc (length l)
length-snoc l r = omega (arith, length-append l (r ∷ []))

module _ (w : Surroundings) where
  -- the ledger of one more file
  pub record Enters (s t : Ingest) : Type 0 where
    pub accounted : IsAccounted (ledger t)
    pub longer : length t.files ≡ suc (length s.files)
    pub processed : t.job.files_processed ≡ s.job.files_processed

  -- events leave the ledger alone
  after_event : (e : IngestionEvent) (s t : Ingest) → Enters s t → Enters s (emit w e t)
  after_event e s t h =
      let same = emit-ledger w e t in
      record {
        accounted = subst IsAccounted (sym same) h.accounted;
        longer = ap (λ (l : Ledger). length l.files) same ∙ h.longer;
        processed = ap (λ (l : Ledger). l.files_processed) same ∙ h.processed;
      }

  reject-Enters :
      (file : DiscoveredFile) (reason : String) (s : Ingest)
      → IsAccounted (ledger s)
      → Enters s (reject w file reason s)
  unfolding add_file
  reject-Enters file reason s h = after_event _ s _ (record {
    accounted = enter_rejected (ledger s) h file.path reason;
    longer = length-snoc s.files _;
    processed = refl;
  })

  pass_over-Enters :
      (file : DiscoveredFile) (s : Ingest) → IsAccounted (ledger s) → Enters s (pass_over w file s)
  unfolding add_file
  pass_over-Enters file s h = record {
    accounted =
        enter_unsupported (ledger s) h file.path (some file.mime_type)
          (some "Unsupported file type.");
    longer = length-snoc s.files _;
    processed = refl;
  }

  register-Enters :
      (file : DiscoveredFile) (checksum : String) (s : Ingest)
      → IsAccounted (ledger s)
      → Enters s (register w file checksum s)
  unfolding add_file
  register-Enters file checksum s h = elim (Bool-cases (contains s.seen checksum)) [
    | inl known ↦ rw known (
        after_event _ s _ (record {
          accounted = enter_duplicate (ledger s) h file.path checksum (some file.mime_type) known;
          longer = length-snoc s.files _;
          processed = refl;
        }))
    | inr new ↦ rw new (record {
      accounted = enter_imported (ledger s) h file.path checksum (some file.mime_type) new;
      longer = length-snoc s.files _;
      processed = refl;
    })
  ]

  -- a call that returns has entered a file; one that raises has left the accounts in order
  abbrev pub Entered : Ingest → Outcome String (Unit {0}) × Ingest → Type 0
  Entered s (ok tt, t) = Enters s t
  Entered s (err e, t) =
      IsAccounted (ledger t)
      × (length t.files ≡ length s.files)
      × (t.job.files_processed ≡ s.job.files_processed)

  hashed-Entered :
      (file : DiscoveredFile) (sum : Outcome String String) (s : Ingest)
      → IsAccounted (ledger s)
      → Entered s (hashed w file sum s)
  hashed-Entered file (err e) s h = (h, refl, refl)
  hashed-Entered file (ok checksum) s h = register-Enters file checksum s h

  from_told :
      (s t : Ingest) (run : Outcome String (Unit {0}) × Ingest)
      → ledger t ≡ ledger s
      → Entered t run
      → Entered s run
  from_told s t (ok tt, u) same h = record {
    accounted = h.accounted;
    longer = h.longer ∙ ap (λ (l : Ledger). suc (length l.files)) same;
    processed = h.processed ∙ ap (λ (l : Ledger). l.files_processed) same;
  }
  from_told s t (err e, u) same (a, b, c) = (
    a,
    b ∙ ap (λ (l : Ledger). length l.files) same,
    c ∙ ap (λ (l : Ledger). l.files_processed) same,
  )

  pub checked-Entered :
      (file : DiscoveredFile) (answer : Outcome String (Unit {0})) (s : Ingest)
      → IsAccounted (ledger s)
      → Entered s (checked w file answer s)
  checked-Entered file (err reason) s h = reject-Enters file reason s h
  checked-Entered file (ok tt) s h =
      let told = emit w (file_validated file.path) s in
      let same = emit-ledger w (file_validated file.path) s in
      let h' = subst IsAccounted (sym same) h in
      elim (Bool-cases (w.is_supported file.path)) [
        | inl supported ↦ rw supported (
            from_told s told (hashed w file (w.sha256_file file.path) told) same
              (hashed-Entered file (w.sha256_file file.path) told h'))
        | inr other ↦
            rw other
              (from_told s told (ok tt, pass_over w file told) same (pass_over-Enters file told h'))
      ]

  -- the accounts do not name the counts of the files that were found and processed
  pub recounted :
      (l : Ledger) (total processed : ℕ)
      → IsAccounted l
      → IsAccounted (record l {
        statistics = record l.statistics { total_files = total };
        files_processed = processed;
      })
  recounted l total processed h = record {
    imported_count = h.imported_count;
    duplicate_count = h.duplicate_count;
    unsupported_count = h.unsupported_count;
    rejected_count = h.rejected_count;
    failed_count = h.failed_count;
    all_counted = h.all_counted;
    distinct = h.distinct;
    seen = h.seen;
    covered = h.covered;
  }

  pub progressed-IsBalanced :
      (index total : ℕ) (s t : Ingest)
      → IsBalanced (ledger s)
      → Enters s t
      → IsBalanced (ledger (progressed w index total t))
        × (length (progressed w index total t).files ≡ suc (length s.files))
  unfolding progressed
  progressed-IsBalanced index total s t (h, even) k =
      let job = record t.job {
        files_processed = t.job.files_processed + 1;
        progress = (index, total);
      } in
      let e = import_progress job.job_id job.progress in
      let same = emit-ledger w e (record t { job = job }) in
      (
        subst IsBalanced (sym same) (
          recounted (ledger t) t.statistics.total_files (t.job.files_processed + 1) k.accounted,
          omega (arith, even, k.longer, k.processed),
        ),
        ap (λ (l : Ledger). length l.files) same ∙ k.longer,
      )
