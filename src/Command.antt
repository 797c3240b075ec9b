-- ===== src/Command.antt =====
-- src/command: the fields of a command text, the device that a command names, and the result texts.
pub mod Field
pub mod Parser
pub mod Serializer
pub mod Processor
