-- ===== src/Worlds/Manager.antt =====
-- packages/worlds/src/stateweaver/worlds/manager.py and ports.py: the world manager. Each coroutine
-- is cut at its `await`s: a task is a coroutine that waits, for the gate of a world or for the
-- adapter, and `resume` runs it to its next wait.
mod Calls
mod Tasks
mod Start
mod Steps
mod Enter
mod Resume
unfoldable pub use Calls.*
pub use Tasks.*
unfoldable pub use Start.*
unfoldable pub use Steps.*
unfoldable pub use Enter.*
unfoldable pub use Resume.*
