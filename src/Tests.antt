-- ===== src/Tests.antt =====
-- Runs of the models on concrete inputs, and the theorems at inputs that meet their hypotheses.
mod Device
mod Client
mod Versions
mod Transfer
mod Agents
mod Handling
mod Documents
mod Subscriptions
mod Reports
mod Requests
mod Streams
mod Provisioning
mod Assembly
mod Messages
mod Certificate
mod Turns
mod Updates
mod Clock
mod Sockets
mod Stored
