-- ===== src/Tests.antt =====
-- Concrete runs of the modelled parts, on which the theorems apply.
mod Spending
mod Working
mod Delivery
mod Calling
mod Planning
mod Looping
mod Levels
mod Recurring
mod Arguments
