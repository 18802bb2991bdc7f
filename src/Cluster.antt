-- ===== src/Cluster.antt =====
-- The package cluster: nodes with their votes and terms, the state of a member, the handlers of
-- the two ends of a connection, the life cycle, and jobs.
pub mod Node
pub mod State
pub mod Messages
pub mod Server
pub mod Client
pub mod Life
pub mod Connect
pub mod Create
pub mod Names
pub mod Election
pub mod Trim
pub mod Closing
pub mod Victory
pub mod Terms
pub mod Broadcast
pub mod Adoption
pub mod Jobs
pub mod Leadership
pub mod Tenure
pub mod Ballots
pub mod Network
pub mod Member
mod Tests
