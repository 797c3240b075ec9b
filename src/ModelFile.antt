-- ===== src/ModelFile.antt =====
-- src/model: where a model's text is found, and the data points that it lists.
pub mod Parser
pub mod Repository
