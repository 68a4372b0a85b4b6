-- ===== src/Dcgm.antt =====
-- app/domain/transform: the transformer of NVIDIA DCGM metrics and the catalog that runs
-- transformers in sequence.
pub mod Defs
pub mod Laws
pub mod Buffer
