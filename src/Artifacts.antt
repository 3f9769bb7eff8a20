-- ===== src/Artifacts.antt =====
-- backend/lexmind/artifacts: one artifact and its versions, and the dependencies between artifacts.
pub mod Artifact
pub mod Graph
pub mod Lineage
