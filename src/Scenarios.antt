-- ===== src/Scenarios.antt =====
-- Concrete runs of the modelled code, and the theorems at them.
mod Jobs
mod Transport
mod Status
mod Providers
mod Plugins
mod Progress
mod Config
mod Profiles
mod Summaries
mod Accounts
mod Clones
mod Intents
mod Disk
mod Staging
