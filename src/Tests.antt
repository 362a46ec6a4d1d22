-- ===== src/Tests.antt =====
-- The theorems at concrete inputs, and what the inputs are made of: accessors for objects, a small
-- API server, and the parameters that remain.
mod Accessors
mod Server
mod Cluster
mod Complete
mod Dashboards
mod Keys
mod Stored
mod Starting
mod Arrivals
mod Copies
mod Requests
mod Labelling
mod Facts
mod Files
mod Objects
mod Waiting
mod Writes
mod Ranges
mod States
