-- ===== src/Lib.antt =====
-- A verification library for the priority HTTP server.
--
-- The program is an asynchronous HTTP server. Its I/O threads run the sessions of the connections
-- (src/session.cpp); a request goes through a router (src/router.cpp) or becomes a task of a thread
-- pool with a bounded priority queue (src/thread_pool.cpp), by the priority that its X-Priority header
-- names. A logger with a thread of its own (src/logger.cpp) takes the messages of all of them. The
-- settings come from a JSON file and the command line (src/config.cpp).
--
-- Which file models which part:
--   TaskQueue: class TaskQueue of include/thread_pool.hpp and src/thread_pool.cpp. `push`, `pop`,
--     `apply_aging`, `shutdown`, `abort` and `size` are its methods; a queue is a record of its
--     fields. Every method holds the mutex for its whole body, so a call is one step and threads show
--     as the order of the calls (TaskQueue.Run). `pop` has the outcome `blocked` where it waits.
--     TaskQueue.Line says what the queue promises, with no heap: a line of tasks in the order of their
--     arrival; TaskQueue.Refinement relates the two.
--   WorkerThread, ThreadPool: the classes of these names. When a worker sets its promise is an
--     argument, so the theorems hold for tasks that never end. ThreadPool.Crew has the threads of all
--     workers over the queue, interleaved in any order.
--   Heap: std::push_heap, std::pop_heap and std::make_heap as an interface, with what the standard
--     says of them; Heap.Sorted fills it with sorted lists.
--   Logger: include/logger.hpp and src/logger.cpp, the levels, the queue, the sinks and the consumer.
--   TimePoint: formatTimePoint of include/utils.hpp, over the time zone of the system.
--   Config: include/config.hpp and src/config.cpp. Config.Arguments is `fromArgs`, Config.File is
--     `loadConfig` over a file system that is a function from paths, Config.Help the text of `printHelp`.
--   Numbers: std::to_string, std::stoi and std::stoul, as far as the program uses them.
--   Json, Http: nlohmann/json and Boost.Beast as interfaces with their documented behaviour, and the
--     helpers of include/utils.hpp that fill a response.
--   Router: include/router.hpp and src/router.cpp.
--   Session: include/session.hpp and src/session.cpp. A handler is a function from the session to the
--     session and the calls that it makes, in order. Session.Ending runs handlers in any order,
--     Session.Requests keeps to the protocol of one connection.
--   Server: include/server.hpp and src/server.cpp. Server.World runs the server with its sessions in
--     any order of the handlers, Server.Limit runs the loop of the acceptor, Server.Limit.Threads with
--     several threads. Server.Lifecycle goes from the constructor of a server to its destructor.
--   HttpTask, RequestProcessor: include/http_task.hpp, src/http_task.cpp,
--     include/request_processor.hpp and src/request_processor.cpp. A task of the pool is its
--     request and the session that its callback holds; `process` gives the pool and the answer that
--     it makes itself.
--   Exchange: a request on its way through src/request_processor.cpp, src/thread_pool.cpp,
--     src/http_task.cpp and the functions that are posted to the I/O context, in any interleaving.
--     Exchange.Conversation adds a session of src/session.cpp, with `sendResponse` of src/server.cpp.
--   StaticFiles: src/static_file_handler.cpp and src/status_handler.cpp, over a file system that is a
--     parameter.
--   Main: src/main.cpp, over what the system does.
--   Prelude: shared names, the integers, and std::string as a list of bytes.
--   Tests: instances of the interfaces and runs on small inputs.
--
-- Numbers: size_t and unsigned int are natural numbers with their wrap-around written out, int is the
-- type ℤ with the range of 32 bits in the hypotheses. Times are nanoseconds of the
-- steady clock, time stamps of the log nanoseconds of the system clock.
-- Fuel: the loop of a worker and the consumer's loop run on fuel; as much as the queue is long, and
-- one more, is enough, which their theorems show.
--
-- Handlers of the server and of a session run one at a time in these models, except that the signal
-- handler runs in two steps, and that Server.Limit.Threads lets accept handlers overlap. A thread of
-- the pool runs from one of its waits to the next as one step.
--
-- Not modelled: an exception that a handler of the I/O context lets out, that the system cannot start
-- a thread, and what is written to the standard error.
pub mod Prelude
pub mod Numbers
pub mod Heap
pub mod TaskQueue
pub mod TimePoint
pub mod WorkerThread
pub mod ThreadPool
pub mod Logger
pub mod Json
pub mod Config
pub mod Http
pub mod Router
pub mod Session
pub mod Server
pub mod HttpTask
pub mod RequestProcessor
pub mod StaticFiles
pub mod Exchange
pub mod Main
pub mod Tests
