-- ===== src/Tests.antt =====
-- The theorems at concrete inputs.
mod Data
mod Workbench
mod SafetyTests
mod WorkspaceTests
mod ProcessTests
mod ServerTests
mod MigrationTests
mod ScriptsTests
mod ReportsTests
mod PublisherTests
