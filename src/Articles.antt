-- ===== src/Articles.antt =====
-- What users read: their states of articles, and the cursors of the lists.
pub mod State
pub mod Cursors
