-- ===== src/Tests.antt =====
-- The theorems at concrete inputs, and runs of the definitions.
mod ExtentRuns
mod BtreeRuns
mod TableRuns
mod BlockRuns
mod VolumeRuns
mod AttributeRuns
mod AttributeBlockRuns
mod InodeRuns
mod DirectoryRuns
mod PathRuns
mod FileEntryRuns
