-- ===== src/Stages.antt =====
-- stages/: the state of an output directory, deduplication, and the scheduling of stage 2.
pub mod State
pub mod Dedup
pub mod Folder
pub mod Update
pub mod Corpus
pub mod Stage1
pub mod Hashes
pub mod Stage2
pub mod CrashImages
mod Tests
mod UpdateTests
mod CorpusTests
mod StageTests
mod RunTests
mod ImageTests
mod TerminatingTests
