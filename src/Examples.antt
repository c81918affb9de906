-- ===== src/Examples.antt =====
-- The theorems at concrete inputs, over concrete instances of the parameters (Data).
mod Data
mod Storm
mod Health
mod Manager
mod Remediate
mod Orphans
mod NodeEvents
mod Threshold
mod Status
mod Escalation
mod Webhook
mod Reconcile
mod Machines
mod Mapper
