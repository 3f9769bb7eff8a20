-- ===== src/Examples/Ingestion.antt =====
-- The theorems about an import, on three files of which two have the same content.
use lex_mind.Ingestion.Job.{IngestionJob, new_job}
use lex_mind.Ingestion.Mime.{document}
use lex_mind.Ingestion.Pipeline.{Surroundings, Ingest, DiscoveredFile, process}
use lex_mind.Ingestion.Pipeline.Balance.{Accounts, process-Accounts}
use lex_mind.Ingestion.Manager.{Registry, import_error, run, fresh_context}
use lex_mind.Ingestion.Manager.Ends.{EndsAs, run_ends}
use lex_mind.Common.{
  ℕ, ◌+◌, String, Bool, true, false, none, List, [], ◌∷◌, ◌≡◌, refl, ◌==◌, eqb, if◌then◌else◌,
  contains,
}
use lex_mind.Common.Effect.{ok, err, Outcome}

abbrev pdf : String → DiscoveredFile
pdf path = record {
  path = path;
  size_bytes = 9;
  mime_type = "application/pdf";
  category = document;
}

abbrev folder : List DiscoveredFile
folder = pdf "a.pdf" ∷ pdf "b.pdf" ∷ pdf "gone.pdf" ∷ []

abbrev there : String → Outcome String (Unit {0})
there path = if path == "gone.pdf" then err "Path does not exist: 'gone.pdf'." else ok tt

-- `cancels` decides at which event a subscriber cancels the job
abbrev folder_with : (ℕ → Bool) → Surroundings
folder_with cancels = record {
  now = λ n. n + 10;
  cancels = cancels;
  discover = λ location recursive. (folder, none);
  validate = there;
  is_supported = λ path. true;
  sha256_file = λ path. ok "e3b0";
  refuses = λ message. none;
}

abbrev quiet : Surroundings
quiet = folder_with (λ n. false)

abbrev job : IngestionJob
job = new_job "w1" "/in" "j1"

abbrev start : Ingest
start = fresh_context quiet job [] 0

process-Accounts_example : Accounts 3 (process quiet "filesystem" (folder, none) start)
process-Accounts_example = process-Accounts quiet "filesystem" folder none start refl

abbrev registry : Registry
registry = record { sources = "filesystem" ∷ []; jobs = ("j1", job) ∷ [] }

run_ends_example :
    EndsAs quiet
      (process quiet "filesystem" (quiet.discover "/in" true) (fresh_context quiet job [] 0))
      (run quiet registry "/in" "filesystem" true job [] 0)
unfolding contains
run_ends_example = run_ends quiet registry "/in" "filesystem" true job [] 0 refl

-- a job that is cancelled while its files are discovered is reported as a failure
cancelled_early :
    (run (folder_with (λ n. eqb n 1)) registry "/in" "filesystem" true job [] 0).0
    ≡ err (import_error "Cannot transition job 'j1' from cancelled to validating.")
unfolding run
cancelled_early = refl
