-- ===== src/Lib.antt =====
-- nexus_relay: a WebSocket relay for publish and subscribe, with notifications of transactions.
--
-- The program. Clients talk JSON-RPC over a WebSocket. A connection (handle_connection of
-- src/lib.rs) reads texts, parses them to requests (src/jsonrpc.rs), has them served
-- (process_message of src/lib.rs) and answers. A request enrols the client's channel at a topic, or
-- publishes a text to those who have subscribed to a topic; a proposal is validated first, against
-- a transaction of the node (src/proposal.rs, src/node.rs). The listener (src/zmq.rs) takes raw
-- transactions and blocks from the node's ZMQ socket and publishes them to the topics of their ids
-- and addresses; it remembers transactions of the mempool in a bounded set, and passes over those
-- that it remembers. Connections and listener share the registry of topics (src/lib.rs)
-- behind a mutex.
--
-- Files and code.
--   Prelude, Prelude/*        numbers, texts, lists, integers, and Outcome: a value, an error or a
--                             panic, with its monad in Prelude/Fallible
--   Std/*                     HashMap as an association list, HashSet as a list, Mutex
--   External, External/*      the packages that the code calls, as records of operations with their
--                             documented behaviour: Json (serde_json, jsonrpc_lite, reqwest),
--                             Elements (elements), Lwk (lwk_wollet), Mpsc (tokio::sync::mpsc);
--                             Packages holds them all, with the derived Deserialize of payloads
--   Topic, Registry           Topic and TopicRegistry of src/lib.rs: new, subscribe, publish. Registry/
--                             Delivery has one call, History any sequence of calls and closings,
--                             Entries the map, View the registry as clients tell it apart, a quotient
--   Payload, Jsonrpc          the types of src/jsonrpc.rs, their constructors, conversions, Display and
--                             topics; Jsonrpc/Parse has parse_id, parse_method, parse_params,
--                             validate_for_method and try_from
--   Error, Node, Network      src/error.rs, src/node.rs, Network of src/lib.rs
--   Shared                    what tasks share: the registry in its mutex, and the channels. An Action
--                             is a call that may change them; with_lock is lock().unwrap() and if_lock
--                             is if let Ok(..) = lock()
--   Proposal                  process_publish_proposal of src/proposal.rs
--   Message                   process_message and subscribe_to_topic of src/lib.rs
--   BoundedSet                BoundedSet of src/zmq.rs: new, contains, insert
--   Zmq                       process_zmq_message, publish_tx_seen, publish_address_seen,
--                             get_output_addresses and the loop of start_zmq_listener of src/zmq.rs
--   Connection                handle_connection of src/lib.rs: the loop over frames, the answers, the
--                             forward task and the cleanup; Connection/Tasks has its two tasks as a
--                             state machine
--   Server                    Config and async_main of src/lib.rs: the start, and a step relation for
--                             the turns of connections and listener in any order; Server/Serve has
--                             async_main as a function of what comes to it, with the accept loop
--   Entry                     main and init_logging of src/main.rs
--   Tests                     packages that can be run, and each theorem at a concrete input; Tests/Suite
--                             has the unit tests of the source, run on the model
--
-- Choices. Numbers are natural numbers; an id is a u32 and its wrap-around is written out in as_u32,
-- where the range test before it makes it the identity. A panic is a value, and leaves the mutex
-- poisoned exactly if it happens under the guard. The runtime has one thread, so what a task does
-- between two awaits is one step; a message touches the shared state in one such piece. The loops
-- over frames and messages are recursion on what the socket yields. The forward task runs on fuel,
-- one unit for each message that it takes from its buffer, and more fuel than there are messages is
-- enough; the fuel is an argument, and no bound is fixed. The cache of transactions holds 1000, as
-- in async_main. A port is written with at most 20 digits, and has at most 5.
-- That to_value of a proposal and to_string of a message, whose results the source unwraps, do not
-- fail is taken as given. What is asked of the JSON packages for the round trip of requests holds
-- also where maps are sorted and merge equal keys, and where an id is an i64. An entry of the map is
-- inserted at its end; the order of a HashMap is never read. The step relation of Server does not ask
-- whether a task still runs; Server/Serve does.
--
-- Not modelled. Sockets and the async runtime: whether they bind, connect and build, and the
-- connections, frames and messages that they yield, are arguments. Which lines are logged, and the
-- texts of errors. The parsing of the command line, whose defaults are in Server: what clap makes of
-- it, also a request for help, is an argument. What the node answers
-- is an argument too. The integration test, the test publisher and the build files.
pub mod Prelude
pub mod Std
pub mod External
pub mod Payload
pub mod Topic
pub mod Registry
pub mod Jsonrpc
pub mod Error
pub mod Node
pub mod Shared
pub mod Proposal
pub mod Message
pub mod BoundedSet
pub mod Network
pub mod Zmq
pub mod Connection
pub mod Server
pub mod Entry
mod Tests
