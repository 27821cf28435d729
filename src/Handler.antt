-- ===== src/Handler.antt =====
-- src/postgres_handler.cpp: the lines that are sent to COPY.
pub mod Append
pub mod Row
pub mod TagsOther
pub mod HstoreColumn
pub mod Members
pub mod Values
pub mod Lines
pub mod RelationLine
pub mod Contents
pub mod MemberRows
