-- ===== src/Diff.antt =====
-- src/diff_handler2.cpp: the second pass over a diff.
pub mod Pending
pub mod Shared
pub mod FirstPass
pub mod SecondPass
pub mod Marks
pub mod Sorting
pub mod Updates
