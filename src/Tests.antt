-- ===== src/Tests.antt =====
-- Runs of the model on concrete inputs, and the theorems at concrete inputs, a module for each part.
mod MemoryTests
mod MemoryManagerTests
mod HashMapTests
mod VectorTests
mod ObjectPoolTests
mod Crc32Tests
mod SerializerTests
mod StorageTests
mod StringTests
