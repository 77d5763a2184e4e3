-- ===== src/Worlds/Store.antt =====
-- packages/worlds/src/stateweaver/worlds/store.py: the manager-owned store of worlds.
mod State
mod Guards
mod Index
mod Reservations
mod Publish
unfoldable pub use State.*
unfoldable pub use Guards.*
unfoldable pub use Index.*
unfoldable pub use Reservations.*
unfoldable pub use Publish.*
