-- ===== src/Handlers.antt =====
-- services/node_state_handlers: what a control pass does with the nodes of each state.
-- `advance` of each child is the handler's `_advance`, on one node; the loops are in Sweep.
pub mod Response
pub mod Import
pub mod Pending
pub mod InProgress
pub mod Resting
pub mod Merged
pub mod Sweep
unfoldable pub use Response.*
