-- ===== src/Lib.antt =====
-- Verification of own-x-go.
--
-- The repository is a collection of Go packages. Those modelled here are the cluster (members that
-- elect a leader and send each other jobs), the tasks that run in rounds on it, the network layer
-- that carries the messages, the timing wheel, the goroutine pool, the containers, the injection of
-- beans, the client for commands and files on other machines, word
-- vectors, and helpers.
--
-- Cluster (cluster/). Members keep a connection to each other (contact.go, `genNodeHandler`), serve
-- each other's messages (`genServiceAcceptorHandler`), and elect a leader (`fightElection`). The
-- files of Cluster/ model one member:
--   Node        node.go: terms, votes and heartbeats that a member records of a node
--   Node/Votes  any history of calls of a node and of the trimming of its votes by `heartbeat`
--   State       service.go, const.go, event.go: the state of a member, `signLeader`,
--               `releaseLeader`, `toNextTerm`; what a method sends or starts is in `trace`
--   Messages    const.go and publish.go: the flags of messages, `RegisterFunc`, `pushTask`,
--               `PublishJob`
--   Life        service.go, metrics.go: `StartUp`, `Close`, `createEvent`, `updateMetrics`; and a
--               round of `heartbeat`
--   Server      contact.go: `genServiceAcceptorHandler`
--   Client      contact.go: `genNodeHandler`
--   Create      service.go: `Create`, `loadAllNodes` and `findMyNode`, with the machine (the directory
--               of the program, the lines of the file, the addresses of the host) as a parameter
--   Create/Loading, Create/Finding, Create/Starting: the list of nodes, the local node, and a member
--               from `Create` to `StartUp`
--   Connect     contact.go: `holdConnection`, `connectToNode`, `openServiceAcceptor`, `broadcastLeader`
--   Names       service.go: the lists of the names and the addresses of the nodes
--   Election    contact.go: `fightElection` and `sendAndWait`
--   Member      any history of these entry points
--   Network     the members together, with the answers to requests for votes on their way; Sums and
--               Tally add up the votes, and Safety is the safety of elections
--   Ballots     what each entry point does to votes (Stretches, Handlers, Requests)
--   Terms (Histories), Leadership, Tenure, Broadcast, Adoption, Victory, Trim, Closing, Jobs: properties
-- Pointers to nodes are the ids of the nodes, and a write through a pointer changes the node for
-- every holder. A handler, a round and a stretch of the election are one step each; the election is
-- cut where the source sleeps or waits, so that handlers run in between. The handlers run only
-- where there is a local node, which is where `StartUp` opens the acceptor. The members of a network
-- do not restart, and a message reaches the member that it is sent to at most once. Terms and times are
-- numbers without a bound: an int of Go has 64 bits, and a term grows by one in an election.
-- A message comes decoded, and a send always succeeds.
--
-- Timing wheel (timing_wheel/timing_wheel.go). TimingWheel/Chain is the chain of a bucket, Wheel the
-- wheel with `AddOnce` and a round of the loop of `Init`; Insert, Schedule, Punctual, Adding, Stuck
-- and Histories hold properties. A chain is the list of its nodes by `next`. Timestamps do not
-- overflow an int64.
--
-- Tasks (task/, task/node/). Task/Scheduler models scheduler.go (Rounds: any history of its calls; Stops:
-- what is left of it after a `Stop`), Task/Worker worker.go and task.go (Runs), and Task/Allocator
-- node/allocator.go: `StartAlloc` there, `roundRun` in Run, `partitionDone` in Done, `cutInLine` in
-- Cut, `StartAfterInjected` and the goroutine of `roundDoneTimeout`, which each `StartAlloc` starts at
-- its end, in Injected; Ranges, Finish and Batches hold properties. Task/Executor models
-- node/executor.go and node/job.go, on what Connect and RunCmd of ssh answer (Retries). Functions are
-- numbers or, where they build tasks, functions that return none for an error. A channel is what was sent on it, and a call under a lock is one step. The runs of a task are
-- recursion on fuel, of which one more than the retries is enough.
--
-- Network layer (nio/). Nio/Codec models `defaultCodec` of codec.go on lists of bytes, and
-- Codec/Frames holds properties. compress/gzip and encoding/json are parameters; that inflation undoes
-- deflation is a hypothesis. Nio/Handler models `readIo` of handler.go on what the connection answers
-- to each read (Drains, Chunks, Failures): the loop over decoded messages has fuel, of which two more
-- than the length of the buffer is enough, and a message is handled by a call or, without `ordered`, by
-- a goroutine, of which the start is modelled and not the time at which it runs. Nio/Session models session.go with the read of the id of
-- client.go (Ids), and Nio/Acceptor the sessions of acceptor.go (Histories: any history of its calls).
--
-- Goroutine pool (gopool/). Gopool/Pool holds the pieces of `CtxGo` and of a worker that no lock or
-- atomic operation cuts further, and Service their interleavings as steps. Worker holds the loop of a
-- worker with the panic handler, with fuel, of which one more than the tasks that wait is enough.
-- Objects are not recycled, and a task is a number.
--
-- Containers (basic/). Basic/OrderedMap models orderedmap.go and Basic/OrderedSet orderedset.go, each
-- call one step; a Go map is an association list. Order and Items hold properties, and Refine the
-- lists that the calls implement. Basic/LinkedList
-- models linkedlist.go on a memory of nodes, where an address is a number and 0 is nil; a result of
-- none is a fault on a nil pointer, or a loop out of rounds, and a loop has as many rounds as the size
-- of the list. Cells, Links and Rep say when a memory holds a list; Edit, Shrink and Walk (Finds,
-- Visits) hold what each operation does to it, and Refine the lists that the calls implement.
--
-- Helpers (tools/). Tools/Retry models the retries of utils.go, where the function is what each of its
-- calls returns, Tools/Lists the helpers on lists of string.go, number.go and functions.go, Addresses
-- the address of the machine of functions.go, and Numbers `toInt64` and `CompareNumber`.
--
-- Beans (bean/bean.go). Bean models the beans under their names, `SetBean`, `AddBean` and `GetBean`,
-- and the injection of `Ioc` and `findAndSet` into a heap of objects; Heaps and Fields hold its lemmas
-- and Wiring the properties. A call of `findAndSet` inside another one has set a nil field of a bean
-- before, so that one more than the nil fields of the beans is enough fuel.
--
-- Other machines (ssh/client.go). Ssh/Commands models a `Cmd` with its connection and the commands that
-- it runs, and Ssh/Files the files that it sends and fetches, by recursion over the tree of files that
-- `Open`, `Stat` and the lists of directories show; Trees, Sent and Received hold properties. The
-- libraries ssh and sftp are parameters. Places holds the hypotheses on sftp: what each request does to
-- files and directories, and that a request which can be done succeeds: `MkdirAll` where no file is in
-- the way, `Create` in a directory, of a path that is not one. Received has like ones on the callbacks
-- of `GetFile`.
--
-- Word vectors (vec/). Vec models word.go, conv.go, similarly.go and the loop of load.go, with the
-- numbers in floating point as a parameter.
--
-- Base holds the shared tests on numbers, integers, and lists and association lists over ℕ.
--
-- Not modelled: files and logs (log, csv, pprof, obsidian), which call libraries only; the examples of
-- the language (the rest of basic, gopl, func, abstract); singleflight (concurrency), a copy of
-- golang.org/x/sync; templates and wrappers of libraries (the rest of tools, cluster/utils.go and
-- cluster/env).
pub mod Base
pub mod Cluster
pub mod TimingWheel
pub mod Basic
pub mod Bean
pub mod Task
pub mod Nio
pub mod Gopool
pub mod Ssh
pub mod Tools
pub mod Vec
