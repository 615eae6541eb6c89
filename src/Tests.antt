-- ===== src/Tests.antt =====
-- Concrete instances of the interfaces, and a run of the properties on them: a database that is an
-- association list, a byte encoding of blocks, and a hash that pads its input to 32 bytes.
pub mod Codec
mod Fixtures
mod Instances
mod ChainTests
mod PoolTests
mod StateTests
mod RegistryTests
mod ForkTests
mod VoteTests
mod NodeTests
mod OrderTests
mod RestartTests
mod MerkleTests
