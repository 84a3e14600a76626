-- ===== src/Examples.antt =====
-- Runs of the model on concrete data.
mod Data
mod Login
mod Select
mod Nodes
mod Proxy
mod Targets
mod Traffic
mod Subscription
