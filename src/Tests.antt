-- ===== src/Tests.antt =====
-- Runs of the models on small inputs, and the laws at concrete inputs.
mod Json
mod Transport
mod Machine
mod Agents
mod Players
mod Idleness
mod Desk
mod Running
mod Restart
mod Together
mod Evening
mod Profiles
mod Sockets
