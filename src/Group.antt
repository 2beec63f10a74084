-- ===== src/Group.antt =====
-- internal/group/manager.go and errors.go: the process-level registry of parties. A method that
-- mutates the manager returns the new manager with its results; every method holds the mutex for
-- its whole body, so a method is one step. Character ids are the int64 row ids of the characters,
-- which the code only compares with each other and with 0. `m.now()` enters as an argument for
-- each reading of the clock. Go's maps are the dictionaries of Base/Dict.
mod Defs
pub mod Invariant
pub mod Calls
pub mod Behaviour
pub mod Leaving
pub mod Inviting
pub mod Room
mod Tests
unfoldable pub use Defs.*
