-- ===== src/Tests.antt =====
-- Concrete inputs: the examples at which the theorems are applied, and runs of the model.
mod Paths
mod Trees
mod Samples
mod Audits
mod Agents
mod Decoys
mod Streams
mod Pairs
mod Requests
mod Sessions
mod Orders
mod Commands
mod Hubs
mod Patches
mod Clusters
mod Dockers
mod Servers
mod Decoding
