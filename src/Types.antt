-- ===== src/Types.antt =====
-- src/types: the containers.
pub mod Audio
pub mod EventBus
pub mod HandleBuffer
pub mod HeapBuffer
pub mod SpinLock
pub mod String
pub mod StackString
