-- ===== src/Server.antt =====
-- agora_server/src/agora_server/core and its subpackages: the parts of a worker.
pub mod ActivationCache
pub mod BatchMetadata
pub mod NextHopLearner
pub mod ExpertBalancer
pub mod TensorParts
pub mod W2wLocalRouter
