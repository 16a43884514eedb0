-- ===== src/Db.antt =====
-- The tables of the backend that are modelled, each with its CHECK constraints, and what is done
-- with them.
pub mod User
pub mod Users
pub mod Team
pub mod TeamMembership
pub mod Service
pub mod ServiceConfigRevision
pub mod Toolset
pub mod McpTool
pub mod ServiceArtifact
pub mod BuildRun
pub mod ServiceCondition
pub mod McpTask
pub mod McpServicePermission
pub mod ApiKey
pub mod AuditEvent
pub mod Outbox
pub mod Repository
pub mod Writers
pub mod Scope
pub mod Types
pub mod Session
mod Tests
