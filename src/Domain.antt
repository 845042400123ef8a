-- ===== src/Domain.antt =====
-- The data of a run, as src/virgo_agentic_dag/domain declares it: the node states, the graph, the
-- persisted rows, the readings of pull requests and the events.
mod States
mod Graphs
mod Reading
mod Rows
pub mod NodeMethods
mod Events
mod Recoveries
unfoldable pub use States.*
unfoldable pub use Graphs.*
unfoldable pub use Reading.*
unfoldable pub use Rows.*
unfoldable pub use Events.*
unfoldable pub use Recoveries.*
