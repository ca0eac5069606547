-- ===== src/Health.antt =====
-- The package health and its types in ports/ports.go. Times are nanoseconds. The clock is a function
-- from the number of readings taken so far to the time that the next reading shows.
pub mod Status
pub mod Checkers
pub mod Manager
pub mod Aggregate
pub mod Freshness
pub mod Concurrent
pub mod Detailed
pub mod Handlers
mod Tests
