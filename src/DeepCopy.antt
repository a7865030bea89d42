-- ===== src/DeepCopy.antt =====
-- api/v1alpha1/zz_generated.deepcopy.go, over a memory that the originals and the copies share.
pub mod Structs
pub mod Types
pub mod Methods
pub mod Parts
pub mod Lists
pub mod Shapes
pub mod Copies
pub mod PartCopies
pub mod Objects
pub mod ListShapes
pub mod ObjectCopies
pub mod ListCopies
