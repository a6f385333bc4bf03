-- ===== src/Lib.antt =====
-- A model of yolo_server, a storage node for the results of YOLO networks, in C++.
--
-- Parts and files (paths are those of the repository): Prelude has shared names, tests on
-- numbers, lists, 64-bit words, std::string as the list of its bytes (Text), std::map and
-- std::unordered_map as association lists (Assoc). Raft is the consensus layer, src/raft.
-- Raft/Types has the data of RaftTypes.h and the members of RaftNode; Raft/Env what a node
-- calls outside its class (clock, random timeout, database, the two exchanges with a peer);
-- Raft/Node the constructor, handleRequestVote, handleAppendEntries, submitLog and
-- applyCommittedLogs; Raft/Election startElection and one round of electionLoop;
-- Raft/Heartbeat one pass of heartbeatLoop. Raft/Steps is a node over time, Raft/History the
-- votes and the victories of its run, and Raft/Safety a cluster of such nodes. The other
-- files of Raft hold the proofs; Raft/Tests, Raft/Examples and Raft/Trio have runs and
-- instances.
--
-- Server is src/server, the wire protocol first. Server/Socket has the calls of the
-- operating system on a stream socket and what is documented of them; Server/Protocol has
-- recvMessage and sendMessage of Protocol.cpp, Server/Command parseCommand. Server/Headers,
-- Server/Framing, Server/Sending, Server/Keeping and Server/Parsing hold the proofs.
-- Server/Startup has the part of the constructor of Server.cpp that fills the router,
-- Server/Alone its proof. Server/Dispatcher has Dispatcher.cpp, which nothing calls. Cluster
-- is src/cluster. Cluster/Router has NodeInfo, pickNode and insertNode over an abstract
-- std::hash; Cluster/Health has checkNodeHealth over the calls of a client socket.
-- Cluster/Picking, Cluster/Moving, Cluster/Inserting and Cluster/Checking hold the proofs.
-- Pool is src/raft/RaftConnectionPool.cpp. Pool/Net has the calls of the operating system
-- and which descriptors are open; Pool/Connections the class. Pool/Invariant, Pool/Getting,
-- Pool/Releasing and Pool/Closing hold the proofs. Pool/Cleanup has start, stop and one
-- round of cleanupLoop, Pool/Queues and Pool/Cleaning its proof. Thread is
-- src/common/thread: Thread/Workers has ThreadPool.cpp as steps of its threads,
-- Thread/Order, Thread/Draining and Thread/Stuck the proofs. Json has the calls of the JSON
-- library and what is documented of them, and Json/Toy an instance. Codec is
-- src/common/codec with the frames of storage/YoloTypes.h: Codec/Frame has encode and
-- decode, Codec/RoundTrip the proof. Host is the machine under a server: the calls of the
-- operating system and of RocksDB over one world, from which Server, Pool, Cluster and
-- Storage take their parts. Rpc is the messages between two RaftNodes: Rpc/Messages and
-- Rpc/Arguments what one side writes and the other reads, Rpc/Exchange sendRequestVote and
-- sendAppendEntries over a connection of the pool; Rpc/Wire and Rpc/Pooled hold the proofs.
-- Connection is src/server/Connection.cpp. Connection/State has the members,
-- Connection/Tokens the words of a message, Connection/Forward forwardToNode,
-- Connection/Handlers handlePing, handleUnknown, handleStore and handleGet, Connection/Raft
-- the two handlers for a RaftNode, Connection/Loop handle. Connection/Machine and
-- Connection/Requests state the machine on which nothing fails and the map that a server
-- stands for; Connection/Serving, Connection/Handling, Connection/Refining,
-- Connection/Asking, Connection/Closing, Connection/Forwarding and Connection/Relaying hold
-- the proofs, Connection/Remote, Connection/Exchanging and Connection/Calling those of two
-- servers together; Connection/Lasting, Connection/Payload, Connection/Lifetime and
-- Connection/Ending that of the descriptors of one client. Process is the rest of
-- src/server/Server.cpp, with src/main.cpp: Process/Listener has the calls on the listening
-- socket and on epoll, Process/RaftLife start and stop of RaftNode.cpp, Process/Lifecycle
-- the members of Server, its constructor, setupSocket and stop, Process/Accepting start and
-- acceptLoop, Process/Main parseConfigPath and main; Process/Peers, Process/Electing,
-- Process/Queue, Process/Stopping and Process/Failing hold the proofs. Config is
-- src/common/config. Config/Trim and Config/Store have Config.cpp, with what std::stoi,
-- std::tolower and std::getline do; Config/Trimming, Config/Reading and Config/Numbers hold
-- the proofs. Storage is src/storage/RocksDBStorage.cpp. Storage/Database has the calls of
-- RocksDB and what is documented of them; Storage/RocksDbStorage the class;
-- Storage/StorageEngine has src/datebase, the interface StorageEngine and the class
-- RocksDBEngine, which are not part of the build. Storage/Keeping and Storage/Running hold
-- the proofs. Logging is src/common/logger: Logging/Spdlog has the calls of spdlog and what
-- is documented of them, Logging/Logger init and log, Logging/Filtering the proof.
--
-- Reading the model: a method takes the object and the world and returns the new ones. Each
-- method of RaftNode holds the mutex from start to end, so it is one step, and any
-- interleaving of the threads is a sequence of steps (Raft/Steps). `none` is undefined
-- behaviour, a vector read past its end. Where code throws, Prelude/Exec tells returning,
-- throwing and undefined behaviour apart. The loop of Connection::handle runs on the number
-- of messages that it reads at most, since a client may send for ever; acceptLoop runs on
-- the number of its rounds and of the clients of one round, and wait on seconds, for the
-- same reason. uint64_t arithmetic wraps where the source could wrap (add64, sub64); times
-- are milliseconds and do not wrap. The loop of applyCommittedLogs runs on fuel commitIndex
-- - lastApplied, which is the number of its rounds; std::to_string n runs on fuel n + 1, and
-- n has at most that many digits.
--
-- Not modelled: the log lines that the methods write; sockets, RocksDB, spdlog and the JSON
-- library themselves, which are parameters where the code calls them; the creation and the
-- joining of threads, but for the thread pool; the order in which an unordered map is
-- walked; the benchmark and the Python clients.
pub mod Cluster
pub mod Codec
pub mod Config
pub mod Connection
pub mod Host
pub mod Json
pub mod Logging
pub mod Pool
pub mod Prelude
pub mod Process
pub mod Raft
pub mod Rpc
pub mod Server
pub mod Storage
pub mod Thread
