-- ===== src/Witnesses.antt =====
-- Small inputs on which the theorems are applied: a request that the planner splits in two steps,
-- the plan on its way through the state manager, and the board of the peer that owns it.
mod Data
mod Lifecycle
mod Plans
mod Waiting
mod Boards
mod Others
mod Buses
mod Network
mod Servers
mod Runs
mod Programs
