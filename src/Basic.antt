-- ===== src/Basic.antt =====
-- The package basic: the containers.
pub mod LinkedList
pub mod OrderedMap
pub mod OrderedSet
mod Tests
