-- ===== src/Tests.antt =====
-- A small MySQL, storage and network to run the model on, and runs of it.
mod Sample
mod Runs
mod Packets
mod Services
mod Sessions
mod Machines
mod Deliveries
mod Demos
mod Journeys
mod Operators
mod Partners
mod Answers
mod Accounts
