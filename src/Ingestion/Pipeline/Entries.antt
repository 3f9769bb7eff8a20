-- ===== src/Ingestion/Pipeline/Entries.antt =====
-- How a result that is entered, of each outcome, keeps the accounts.
use mathlib.Core.List.{append-nil}
use lex_mind.Ingestion.Pipeline.{
  FileResult, FileOutcome, imported, duplicate, unsupported, rejected,
}
use lex_mind.Common.{
  one_more, ◌+◌, String, true, false, ◌≡◌, refl, inl, inr, Option, none, some, [], ◌∷◌, ◌++◌,
  Bool-cases, contains, sym, ap, ◌∙◌, subst, arith, ◌==◌, eq_iff, length-append, contains-append,
}
use lex_mind.Ingestion.Pipeline.Accounts.{
  Ledger, IsAccounted, sums_of, sums_of-append, count-snoc, entered, plain_result, summed_result,
}

module _ (l : Ledger) (h : IsAccounted l) where
  -- a result that adds no checksum to those of an outcome
  enter_plain :
      (o : FileOutcome) (r : FileResult)
      → sums_of o (r ∷ []) ≡ []
      → sums_of o (l.files ++ r ∷ []) ≡ sums_of o l.files
  enter_plain o r plain =
      sums_of-append o l.files (r ∷ [])
      ∙ ap (λ k. sums_of o l.files ++ k) plain
      ∙ append-nil (sums_of o l.files)

  pub enter_rejected :
      (path reason : String)
      → let st = l.statistics in
        IsAccounted (
          entered
            (plain_result rejected path none (some reason))
            (record st { errors = st.errors + 1 })
            l.seen
            (l.files_failed + 1)
            l)
  unfolding sums_of
  enter_rejected path reason =
      let r = plain_result rejected path none (some reason) in
      let same = enter_plain imported r refl in
      let same' = enter_plain duplicate r refl in
      record {
        imported_count = omega (arith, count-snoc imported l.files r, h.imported_count);
        duplicate_count = omega (arith, count-snoc duplicate l.files r, h.duplicate_count);
        unsupported_count = omega (arith, count-snoc unsupported l.files r, h.unsupported_count);
        rejected_count = omega (arith, count-snoc rejected l.files r, h.rejected_count);
        failed_count = omega (arith, h.failed_count);
        all_counted = omega (arith, length-append l.files (r ∷ []), h.all_counted);
        distinct = rw same h.distinct;
        seen = λ c. rw same (h.seen c);
        covered = λ c k. rw same (h.covered c (rw same' at k));
      }

  pub enter_unsupported :
      (path : String) (mime_type message : Option String)
      → let st = l.statistics in
        IsAccounted (
          entered
            (plain_result unsupported path mime_type message)
            (record st { unsupported = st.unsupported + 1 })
            l.seen
            l.files_failed
            l)
  unfolding sums_of
  enter_unsupported path mime_type message =
      let r = plain_result unsupported path mime_type message in
      let same = enter_plain imported r refl in
      let same' = enter_plain duplicate r refl in
      record {
        imported_count = omega (arith, count-snoc imported l.files r, h.imported_count);
        duplicate_count = omega (arith, count-snoc duplicate l.files r, h.duplicate_count);
        unsupported_count = omega (arith, count-snoc unsupported l.files r, h.unsupported_count);
        rejected_count = omega (arith, count-snoc rejected l.files r, h.rejected_count);
        failed_count = h.failed_count;
        all_counted = omega (arith, length-append l.files (r ∷ []), h.all_counted);
        distinct = rw same h.distinct;
        seen = λ c. rw same (h.seen c);
        covered = λ c k. rw same (h.covered c (rw same' at k));
      }

  pub enter_duplicate :
      (path checksum : String) (mime_type : Option String)
      → contains l.seen checksum ≡ true
      → let st = l.statistics in
        IsAccounted (
          entered
            (summed_result duplicate path checksum mime_type)
            (record st { duplicates = st.duplicates + 1 })
            l.seen
            l.files_failed
            l)
  unfolding sums_of contains
  enter_duplicate path checksum mime_type known =
      let r = summed_result duplicate path checksum mime_type in
      let same = enter_plain imported r refl in
      record {
        imported_count = omega (arith, count-snoc imported l.files r, h.imported_count);
        duplicate_count = omega (arith, count-snoc duplicate l.files r, h.duplicate_count);
        unsupported_count = omega (arith, count-snoc unsupported l.files r, h.unsupported_count);
        rejected_count = omega (arith, count-snoc rejected l.files r, h.rejected_count);
        failed_count = h.failed_count;
        all_counted = omega (arith, length-append l.files (r ∷ []), h.all_counted);
        distinct = rw same h.distinct;
        seen = λ c. rw same (h.seen c);
        covered = λ c k. rw same (elim (Bool-cases (contains (sums_of duplicate l.files) c)) [
          | inl before ↦ h.covered c before
          | inr new ↦
              let this : (checksum == c) ≡ true = ground (
                arith,
                sums_of-append duplicate l.files (r ∷ []),
                contains-append (sums_of duplicate l.files) (checksum ∷ []) c,
              ) in
              sym (h.seen c)
              ∙ subst (λ x. contains l.seen x ≡ true) ((eq_iff checksum c).0 this) known
        ]);
      }

  pub enter_imported :
      (path checksum : String) (mime_type : Option String)
      → contains l.seen checksum ≡ false
      → let st = l.statistics in
        IsAccounted (
          entered
            (summed_result imported path checksum mime_type)
            (record st { imported = st.imported + 1 })
            (checksum ∷ l.seen)
            l.files_failed
            l)
  unfolding sums_of contains
  enter_imported path checksum mime_type new =
      let r = summed_result imported path checksum mime_type in
      let longer = sums_of-append imported l.files (r ∷ []) in
      let same = enter_plain duplicate r refl in
      record {
        imported_count = omega (arith, count-snoc imported l.files r, h.imported_count);
        duplicate_count = omega (arith, count-snoc duplicate l.files r, h.duplicate_count);
        unsupported_count = omega (arith, count-snoc unsupported l.files r, h.unsupported_count);
        rejected_count = omega (arith, count-snoc rejected l.files r, h.rejected_count);
        failed_count = h.failed_count;
        all_counted = omega (arith, length-append l.files (r ∷ []), h.all_counted);
        distinct = rw longer (one_more _ checksum h.distinct (sym (h.seen checksum) ∙ new));
        seen = λ c. rw longer (
            ground (arith, contains-append (sums_of imported l.files) (checksum ∷ []) c, h.seen c));
        covered = λ c k. rw longer (
            ground (
              arith,
              contains-append (sums_of imported l.files) (checksum ∷ []) c,
              h.covered c (rw same at k),
            ));
      }
