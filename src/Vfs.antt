-- ===== src/Vfs.antt =====
-- internal/vfs: the in-memory file system. Nodes and pointers, the operations, their proofs.
pub mod Tree
pub mod Walk
pub mod State
pub mod Write
pub mod Messages
pub mod Remove
pub mod Seed
pub mod Bootstrap
pub mod Change
pub mod Laws
pub mod Weight
pub mod Sound
pub mod Reach
pub mod Account
pub mod Seeded
pub mod Planted
pub mod Initial
pub mod WriteBudget
pub mod MkdirBudget
pub mod RemoveBudget
pub mod RenameBudget
pub mod RenameInside
pub mod ChangeBudget
pub mod Ops
pub mod Atomic
pub mod Proc
pub mod Read
pub mod Visits
pub mod Letters
pub mod PathLaws
pub mod RoundTrip
pub mod MkdirUp
pub mod Tests
