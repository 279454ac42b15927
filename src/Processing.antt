-- ===== src/Processing.antt =====
-- internal/modules/catalog/application: the worker that processes uploads.
pub mod Bytes
pub mod Wav
pub mod Waveform
pub mod Media
pub mod Process
pub mod Next
pub mod Worker
pub mod Archive
pub mod Tests
