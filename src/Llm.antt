-- ===== src/Llm.antt =====
-- Providers of language models.
pub mod Fallback
pub mod Trying
pub mod Messages
pub mod Http
pub mod Openai
pub mod Anthropic
pub mod Google
pub mod Azure
pub mod Streams
pub mod Exchange
pub mod Wires
pub mod Vendors
pub mod Registry
pub mod Health
pub mod Selection
