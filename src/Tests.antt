-- ===== src/Tests.antt =====
-- The theorems at work on small stores.
mod Samples
mod Domain
mod Store
mod Application
mod Processing
mod Issuing
mod Queue
mod Webhooks
mod Requests
mod Ubl
mod Inbound
mod Canonical
mod Issued
mod Soap
