-- ===== src/Tests.antt =====
-- Runs on concrete inputs, and each theorem that has hypotheses at one of them.
mod Samples
mod Stored
mod Dedup
mod Client
mod Transport
mod Storage
mod Parser
mod Repository
mod Http
mod Slots
mod Network
mod Program
mod Script
mod Document
mod ArticleUrl
