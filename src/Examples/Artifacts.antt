-- ===== src/Examples/Artifacts.antt =====
-- The theorems about an artifact that gets a second version and is then deleted.
use lex_mind.Artifacts.Artifact.{
  Artifact, ArtifactVersion, registered, create_new_version, with_version, next_version,
  latest_version,
}
use lex_mind.Artifacts.Artifact.Versions.{IsSound, Step, Steps, IsSound-Steps}
use lex_mind.Common.{refl, [], ◌∷◌, contains}

abbrev scan : Artifact
scan = record {
  id = "a1";
  workspace_id = "w1";
  investigation_id = "";
  artifact_type = "ocr_text";
  subtype = "";
  status = registered;
  current_version = 1;
  producer_module = "ocr";
  producer_version = "1";
  checksum = "c1";
  media_type = "text/plain";
  storage_uri = "file:a";
  tags = "draft" ∷ [];
  extra = [];
  versions = [];
  created_at = 1;
  updated_at = 1;
}

abbrev content : ArtifactVersion
content = record {
  artifact_id = "";
  version_number = 0;
  checksum = "c2";
  producer_module = "ocr";
  producer_version = "2";
  storage_uri = "";
  media_type = "";
  notes = "again";
  created_at = 5;
}

scan-IsSound : IsSound scan
unfolding latest_version contains
scan-IsSound = record {
  numbered = tt;
  counted = refl;
  fresh = λ v e. cc;
  distinct_tags = (refl, tt);
}

abbrev second : Artifact
second = with_version content 6 scan

life : Steps scan second
unfolding create_new_version
life = Steps.more Steps.here (Step.renewed content (next_version content scan) 6 refl)

IsSound-Steps_example : IsSound second
IsSound-Steps_example = IsSound-Steps scan second scan-IsSound life
