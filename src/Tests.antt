-- ===== src/Tests.antt =====
-- Concrete inputs, and the theorems of the other modules applied to them.
mod Fixtures
mod DecodeTests
mod ThreadTests
mod LockTests
mod LoadingTests
mod SessionTests
mod FuzzTests
mod LayoutTests
mod PluginTests
mod CodecTests
mod RegistryTests
mod TextTests
