-- ===== src/Journal.antt =====
-- The journal format of core/src/job_store.cpp: one record to a line, fields between tabs.
pub mod Fields
pub mod Lines
pub mod Escape
pub mod Numbers
pub mod Splitting
pub mod RoundTrip
pub mod Files
mod Examples
