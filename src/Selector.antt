-- ===== src/Selector.antt =====
-- internal/selector: the choice of a device by a predicate over its attributes.
pub mod Version
pub mod Match
pub mod Resolve
pub mod Strings
mod Tests
