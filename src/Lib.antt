-- ===== src/Lib.antt =====
-- IoT based RAID 01 is a network drive: a master takes the read and write requests of the kernel's
-- block device, cuts them at the borders of the minions' chunks, and sends each piece over UDP to two
-- minions, which keep the bytes in a file. This library models the path of a request from the kernel
-- to the minions' files and back; what is proved of it is listed at the end.
--
-- The parts, with the paths of the code from the repository's root:
--
--   Prelude          names shared by all files; lists and tests on the native numbers, maps, bytes in
--                    memory, outcomes of calls.
--   Splitter         concrete/src/StripeSplitter.cpp: `split` is `Split`, and `split_loop` its loop.
--   Message          concrete/src/AMessage.cpp, MessageSend.cpp, MessageReceive.cpp: the four messages;
--                    `to_buffer` and `from_buffer` are `ToBuffer` and `FromBuffer`.
--   Packet           the checks of a datagram in concrete/src/MinionProxy.cpp and MasterProxy.cpp.
--   Factory          framework/include/factory.hpp.
--   Dispatcher       framework/include/dispatcher.hpp: the callbacks of a dispatcher; Lifetimes has the
--                    objects of both sides, with their pointers and destructors.
--   Ticket           concrete/src/Ticket.cpp: `on_mirror_response` is `OnMirrorResponse`; `run` is a
--                    sequence of answers in any order.
--   MinionProxy      concrete/src/MinionProxy.cpp: the map of callbacks of one minion.
--   NbdProxy         concrete/src/NBDProxy.cpp and the classes of arguments: the kernel's requests and
--                    replies, as numbers; Wire has their bytes.
--   ResponseManager  concrete/src/ResponseManager.cpp: which requests are open.
--   MinionManager    concrete/src/MinionManager.cpp: `add_read_task_to` and `add_write_task_to` are
--                    `AddReadTask` and `AddWriteTask`, with the loop over the segments.
--   Commands         concrete/src/Commands.cpp: the commands that call the manager.
--   Master           the parts of the master together: `wake` is the arrival of one packet, from the
--                    socket through the ticket to the kernel's reply. ReadAnswered and WriteAnswered are
--                    about a request of the kernel inside one chunk, from the socket and back to it,
--                    LostWrite and CrossedRead about one over the border of two chunks.
--   Storage          the minions side by side, which serve the master's datagrams: `serve` is a minion
--                    that takes a datagram and runs its command. Cells and Files have the bytes of
--                    their files, ReadBack a write and a read after it, ReadResult the ticket of the
--                    read.
--   TcpClient        concrete/src/TcpClientSocket.cpp: the loops of `Send` and `Receive`.
--   Minion           concrete/src/MasterProxy.cpp, FileManager.cpp, MinionArgs.cpp, MinionCommands.cpp:
--                    the minion's path from a datagram to its file and the reply; FileInit has
--                    `FileManager::Init`.
--   Nbd              concrete/src/NBD.cpp: the device's descriptors and process, and `Ntohll`.
--   Singleton        framework/include/singleton.hpp and handleton.hpp: the two `GetInstance`.
--   Socket           concrete/include/SocketBase.hpp, with the constructors of UdpSocket.cpp and
--                    TcpClientSocket.cpp: who has which descriptor.
--   WaitableQueue    framework/include/waitable_queue.hpp: `pop` of the queue and `pop_greatest` of the
--                    priority queue.
--   ThreadPool       framework/src/thread_pool.cpp: `work` is a worker's turn in `ThreadRunTask`.
--   Scheduler        framework/src/scheduler.cpp: `take_task` and `finish_task` are the two halves of
--                    `RunTask`.
--   AsyncInjection   framework/src/AsyncInjection.cpp and FW_TPTask.cpp: what becomes of a function that a
--                    command hands over to be run later.
--   Logger           framework/src/logger.cpp: `logger_run` is a step of the logger's thread.
--   Reactor          framework/src/reactor.cpp and listener.cpp: `round` is a round of `Run`, `listen` is
--                    `Listen`; its child Framework has the functions that
--                    framework/src/Framework.cpp registers.
--   Framework        framework/src/Framework.cpp: the object with the reactor, the monitor and the
--                    loader, and the plugin of framework/src/FrameworkPlugin.cpp.
--   DirMonitor       framework/src/dir_monitor.cpp and dll_loader.cpp: `monitor_turn` is a round of
--                    `MonitorRun`; Watch has `Run` and `Stop`.
--   Tests            runs on small inputs, and every theorem of the list below at one of them.
--
-- How it is modelled. State is a record that each operation takes and returns. A shared pointer to a
-- ticket is a place in the manager's heap, so that the callbacks and the maps name the same object. An
-- outcome is `ok`, `throw` for a C++ exception, or `fault` for undefined behaviour. A mutex makes the
-- call that holds it one step; what arrives, and in which order, is an explicit list. A `size_t` sum
-- that the code does not guard is taken modulo 2 ^ 64, and a message's size modulo 2 ^ 32. Memory that
-- the code has not set is the parameter `junk`. The kernel is a parameter: `takes` says which datagrams
-- `sendto` takes, lists say what `recvfrom` and `recv` bring, `FileStream` is the standard library's
-- stream, and `NbdAbi` holds the constants of the system's headers. `select`, `dlopen`, `localtime`,
-- `ntohl` and the answers of the other system calls are arguments of what uses them.
--
-- Threads. Where the framework has threads, a data type has one constructor for each step that a thread
-- or a caller can take between two accesses of shared state, and what holds is shown for everything that
-- such steps lead to, in any order: `Reach` of ThreadPool.Turns, Scheduler.Tasks and Logger.Order. The
-- pool's workers and the scheduler's threads run the tasks that the reactor and the injections add.
--
-- Fuel. `split_loop` has fuel for its rounds. Each round takes at least a byte, so the request's length
-- is enough, and a run out of fuel shows as `none`. `parse_events` has fuel for its events, of which each
-- takes sixteen bytes or more, and is given one per byte. The loop of the reactor has fuel for its
-- rounds, since it ends only when it is told to. All other loops are structural.
--
-- Not modelled: the kernel behind the calls, the addresses of the minions, and what the sample plugins
-- print. A task of the pool that throws ends the program; the tasks of
-- the model do not.
pub mod Prelude
pub mod Splitter
pub mod Factory
pub mod Message
pub mod Packet
pub mod Dispatcher
pub mod Ticket
pub mod MinionProxy
pub mod NbdProxy
pub mod ResponseManager
pub mod MinionManager
pub mod WaitableQueue
pub mod Storage
pub mod ThreadPool
pub mod Scheduler
pub mod AsyncInjection
pub mod Logger
pub mod Reactor
pub mod DirMonitor
pub mod Framework
pub mod Nbd
pub mod Socket
pub mod Singleton
pub mod Commands
pub mod TcpClient
pub mod Minion
pub mod Master
pub mod Tests
