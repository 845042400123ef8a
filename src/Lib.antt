-- ===== src/Lib.antt =====
-- A verification library for virgo-agentic-dag, a program that runs coding agents over a graph of
-- tasks. A dag file declares nodes and the nodes that each depends on. A control pass (`tick`) reads
-- the graph, validates it, gives each node a row in the run's database, and lets one handler per
-- node state act: a pending node is started once its dependencies have merged, a working node is
-- settled once its agent's session ends, a resting node follows its pull request and is woken for
-- news, and the worktree of a merged node is reclaimed.
--
-- All paths below are under src/virgo_agentic_dag. A function of the model has the name of the
-- method that it translates, without a leading underscore; a method that is long is several
-- functions, one for each of its parts, composed as the method composes them.
--
--   Domain        domain/node, domain/graph, domain/specs, domain/persistence/entities,
--                 domain/observation, domain/review, domain/events: records and pure methods
--   GraphService  domain/service/graph_service.py
--   Validation    domain/service/validators and domain/service/graph_validation_service.py
--   Signals       services/signals and domain/signals
--   StartTime     domain/service/node_start_time_service.py
--   Store         infra/persistence/sqlite, domain/node/node_state_handler.py and what is handed to
--                 domain/service/notification_publisher.py, as functions on a record of tables;
--                 Store.Monad is the state and the exceptions that the handlers run in,
--                 Store.Touch and Store.Reach say what an action may do to the table of nodes,
--                 Store.Moves puts together what the statements of an action keep, and Store.Memory
--                 is infra/persistence/memory/inmemory_node_repo.py
--   World         what is outside: agents, git, the hosting platform, files and the clock, as a
--                 record of answers that every handler takes as a parameter
--   Handlers      services/node_state_handlers, services/run/adopted_node_importer.py,
--                 services/run/node_wait_service.py, and the part of
--                 api/cli/handlers/tick_command_handler.py from the rows to the merged nodes (Sweep)
--   Building      domain/service/graph_builder.py, what a node inherits of its dag by
--                 domain/specs/dag_spec.py, and services/preview/mermaid_renderer.py
--   Services      services/scheduling (Schedule), services/run/dependent_release_service.py
--                 (Release), and services/run/node_skip_service.py,
--                 api/cli/handlers/retry_command_handler.py and services/stop (Commands)
--   Recovery      services/recovery: Scan chooses the failed nodes that a recovery agent examines,
--                 Dispatch starts it, and Service applies what it decides on a node
--   Learning      services/learning: the lock of extraction sessions, the reading of its file by
--                 lines, and the dispatch of the sessions
--   Tick          api/cli/handlers/tick_command_handler.py, from the loading of the dag to the exit
--                 code: validation, the sweep of Handlers, recovery and learning
--   Web           api/web/mappers/dag_mapper.py: the responses that list a dag and its nodes
--   Labels        labels/en.py
--   Prelude       lists, texts and integers that the components share
--   Samples, Tests  a small run, and the theorems at work on it
--
-- Numbers are natural numbers without a bound, as Python's are; an attempt budget, which can go
-- below zero, is an integer. A moment is its number of seconds. A text is compared by its code
-- points. The two work-list loops of GraphService run on fuel: the number of pushes that the graph
-- allows for the first, one more than its nodes for the second. The loop of the cycle rule has one
-- round more than the graph has ids. Each is proved to be enough, on every graph.
--
-- An exception is a value, and what was written before it stays written. Each call from outside
-- answers once for given arguments in a pass. The JSON text of a worktree's watermarks is the
-- object that it encodes. A statement on the database does not raise in the model, though it may
-- in the program, but for the two that record a recovery and spend its attempt: each of these is
-- refused or taken by an answer of the World.
--
-- The recovery and the learning of a pass run concurrently in the program, and one after the other
-- in the model. The lock file of learning is its text, as it is read, and creating it and writing
-- to it are one step. A run lock that a command holds is not modelled.
--
-- Not modelled: the adopt and import services and the examination of a node, which print or repeat
-- what other parts do; watching, the arguments of the command line, the web interface but for the
-- responses of a dag, the front end, notifications behind the publisher, and the processes, files
-- and sockets themselves, which are input and output.
mod Prelude
pub mod Domain
pub mod GraphService
pub mod Signals
pub mod Validation
pub mod Store
mod Labels
pub mod Web
pub mod World
pub mod StartTime
pub mod Handlers
pub mod Building
pub mod Services
pub mod Recovery
pub mod Learning
pub mod Tick
mod Samples
mod Tests
