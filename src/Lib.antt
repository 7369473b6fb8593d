-- ===== src/Lib.antt =====
-- A model of the win_io libraries: asynchronous input and output on Windows over I/O completion
-- ports, for C++20 coroutines and for the senders of libunifex.
--
-- The program. src/win_io wraps the port (IoCompletionPort) and reads directory changes on top of it.
-- src/win_io_coro has a queue without locks for the tasks of its scheduler, and unbuffered reads of
-- files. src/win_socks has senders for sockets, whose operation states make one call of Winsock each,
-- and algorithms on top: transfers of all bytes of some buffers, a choice of scheduler, and connecting
-- to a range of endpoints. src/fs_changes_print is a tool that prints the changes of a directory. An operation that the system does not finish at once is finished by the
-- entry that the port delivers, through the callback in its OVERLAPPED.
--
-- The files, with the code that they model:
--   Base     numbers, tests, lists, and Outcome, the result of code with assertions;
--   Os       pointers, handles and error codes as numbers;
--   File     src/win_io_coro/include/win_io_coro/coro_async_file.h:
--     Sectors  the rounding to sectors;
--     Read     ScheduleReadImpl_, SingleReadOverlapped and ReadBuffer;
--     Task     AsyncReadTask, and HandleIOCP_Once;
--     Open     AsyncFile;
--   Queue    src/win_io_coro/include/win_io_coro/detail/intrusive_queue.h: push and pop,
--            with one thread, and in Threads with any number of them;
--   Port     src/win_io/include/win_io/io_completion_port.h: all calls of IoCompletionPort;
--   Scheduler
--            src/win_io_coro/src/io_coro_scheduler.cpp and src/win_io_coro/src/io_task.cpp: poll_one,
--            poll and the awaiting of a task;
--   Directory
--            src/win_io/include/win_io/read_directory_changes.h:
--     Parser   the range of changes and its iterators;
--     Watch    DirectoryChanges, where stop is close, move_watch the assignment, and make_on_handle and
--              make_on_name the two make functions;
--   Sockets  src/win_socks/include/unifex_IOCP_sockets.hpp:
--     Buffers  OneBufferOwnerOrManyRef;
--     Transfer State_AsyncReadWrite and async_read_write_impl;
--     Operation
--              what the operation states share, with ReadWrite (Operation_WriteSome, Operation_SendTo,
--              Operation_ReadSome, Operation_ReceiveFrom) and Connect (Operation_Connect,
--              Operation_IOCP_Schedule) below it;
--     Handles  Async_TCPSocket and Async_UDPSocket;
--     Senders  the senders of single calls, the async_ members of the sockets that make them, and the
--              starts of async_read and async_write;
--     Schedulers
--              IOCP_Scheduler and SelectOnceInN_Scheduler;
--     Stream   a turn of the loop of async_read_write_impl with its scheduler, sender and operation state,
--              and one direction of a connection, from an async_write to an async_read;
--     Accept   Operation_Accept;
--     Select   Operation_SelectOnceInN;
--     RangeConnect
--              Operation_RangeConnect;
--     Resolve  EndpointsList_IPv4 and Operation_Resolve, and in Runs its threads;
--     Wait     IOCP_sync_wait;
--   Printer  src/fs_changes_print/main.cpp: the command line and the lines of changes, and in Watching
--            WatchForever and wmain;
--   Programs the examples: Echo for src/unifex_TCP_simple_echo/main.cpp (the buffers, and in Exchange the
--            transfers), EchoServer for src/unifex_tcp_echo_server/main.cpp, UdpEchoServer for
--            src/unifex_udp_echo_server/main.cpp, Watcher for
--            src/rxcpp_fs_changes/main.cpp.
-- The other files below these hold the proofs, under the names of what they show, and the Examples
-- apply the results to concrete data.
--
-- How code becomes definitions. The names are those of the source. State is a record that each
-- operation takes and returns. The functions of Windows are arguments, or fields of a record over the
-- state of the system; what is asked of them stands as a hypothesis or a record of laws. An assertion
-- that fails is failed_assert of Outcome. Words of 32 and 64 bits are natural numbers reduced modulo
-- their range; addresses are numbers that do not wrap. What a stop token says is a field of the
-- operation.
--
-- Loops. The walk of pop is on fuel, and as much fuel as there are items is enough; its other loop and
-- that of push end with the list of attempts, of which any number may fail before one succeeds. The
-- loop over directory changes is on fuel too, two more than there are changes being enough. The loop of
-- async_read and async_write goes over the list of the completions of its calls. poll is on as many
-- calls of poll_one as it is given, one more than there are entries being enough.
-- IOCP_sync_wait is on fuel for its waits, and as many as entries are served are enough, those included
-- that callbacks post meanwhile; in WatchForever one turn of the endless loop is modelled.
--
-- Threads. For the queue and for the resolution of a name, what the threads do is a step relation over
-- their common state, a step being an atomic operation with what a thread does alone up to the next one;
-- what holds then holds in every state that any sequence of steps reaches. A callback that IOCP_sync_wait
-- runs may change the state of the program and that of the system.
--
-- Connections. The two sides of a connection and the system between them are a step relation too: a side
-- makes the call of its next turn, for which the system moves some bytes, none if it fails; or it runs the
-- callback of that call. The bytes on the way are a list. What libunifex puts together is written out as
-- its documentation says: repeat_effect_until as turns, on as a signal of the scheduler before the call,
-- let_value and then as what is done with a value. So is what RxCpp puts together: a subject hands its
-- values to its subscribers in the order in which they subscribed, on the thread of the caller.
--
-- Not modelled: start_detached, which only allocates; the other example programs, and what is not named
-- above of how these put senders of libunifex together; what the tool prints for help; when a request to
-- stop comes, but for the resolution of a name; the algorithms of libunifex, which the library only calls;
-- and memory orderings, where an atomic operation is a step.
pub mod Base
pub mod Os
pub mod File
pub mod Queue
pub mod Port
pub mod Scheduler
pub mod Directory
pub mod Sockets
pub mod Printer
pub mod Programs
