-- ===== src/Tests.antt =====
-- Tests, and each theorem at a concrete input. The store runs on the engine in memory, with codecs that
-- write a value as a list of numbers.
mod Samples
mod Codecs
mod StatsTests
mod InteractionTests
mod OwnerTests
mod IndexerTests
mod QueueTests
mod TransferTests
mod VariablesTests
mod SpecTests
mod StartTests
mod InstallTests
mod InvokeTests
mod ConnectionsTests
