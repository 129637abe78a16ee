-- ===== src/Tests.antt =====
-- Runs of the components on small inputs.
mod Data
mod Consumer
mod Reports
mod Uploads
mod Dispatching
mod Requests
mod Access
mod Lookups
mod Listings
mod Connections
