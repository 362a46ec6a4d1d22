-- ===== src/DeepCopy.antt =====
-- api/v1beta1/zz_generated.deepcopy.go
pub mod Types
pub mod Memory
pub mod Shapes
pub mod Methods
pub mod Copied
pub mod Arrays
pub mod Copiers
pub mod Structs
pub mod Independent
