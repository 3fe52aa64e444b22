-- ===== src/Lib.antt =====
-- spe2 is a small framework for network servers in C. A worker process runs an event loop: epoll
-- tells which descriptors are ready, their tasks enter the queue of the scheduler, timers that are
-- due follow them, and the handlers of the tasks read and write through buffers.
--
-- Which file models which part:
--   Buf       src/spe_buf.c, src/spe_buf.h: buffers of bytes. `Buf` is the block with its bytes, the
--             offset of `data` in it, `len` and `_size`; `append`, `copy`, `lconsume`, `rconsume`,
--             `clean`, `search`, `strim`, `cmp`, `to_lower`, `to_upper`, `read_fd_append` and
--             `read_fd_copy` are the functions spe_buf_*.
--   Io        src/spe_io.c, src/spe_io.h: blocking reads and writes of a file through a buffer.
--             `read`, `readbytes`, `readuntil` and `write` are spe_io_*.
--   Task      src/spe_task.c, src/spe_task.h, src/spe_handler.h: the scheduler. `schedule`,
--             `schedule_timeout`, `dequeue` and `process` are spe_task_*.
--   Epoll     src/spe_epoll.c, src/spe_epoll.h: the table of descriptors. `enable`, `disable` and
--             `process_events` are spe_epoll_enable, spe_epoll_disable and the loop of
--             spe_epoll_process.
--   Signal    src/spe_signal.c: signals that wait to be handled. `common_handler`, `register` and
--             `process_signals` are signal_common_handler and spe_signal_*.
--   Map       src/spe_map.c, src/spe_map.h: the hash map. `get`, `set`, `del`, `clean` and `next` are
--             SpeMap*.
--   Worker    src/spe_worker.c, src/spe_worker.h: the table of worker processes. `fork`, `reset` and
--             `stop` are spe_worker_*; Worker.Process is spe_worker_process, with its event loop in
--             Worker.Turn.
--   Module    src/spe_module.h, src/spe_worker.c: the order in which spe_worker_process runs the hooks
--             of the modules.
--   Buf.Split src/spe_buf.c, src/spe_buf.h: arrays of buffers. `Bufs` is spe_bufs_t, `bufs_append` is
--             spe_bufs_append and `buf_split` is spe_buf_split.
--   Conn      src/spe_conn.c, src/spe_conn.h: connections. `Conn` is spe_conn_t; Read, Write and Setup hold
--             the calls and handlers: `read`, `readbytes`, `readuntil`, `write`, `flush`, `connect`,
--             `set_timeout`, `create` and `destroy` are spe_conn_*, `on_readable` is read_normal,
--             `on_writable` is write_normal and `on_connected` is connect_normal. Conn.Tasks joins them
--             with Task and Epoll.
--   Server    src/spe_server.c, src/spe_server.h: `preloop`, `postloop`, `register` and `unregister` are
--             spe_server_*.
--   Opt       src/spe_opt.c, src/spe_opt.h: `opt_create`, `opt_int`, `opt_string` and `opt_destroy` are
--             spe_opt_*. Opt.Config is the reading of the file.
--   Main      src/spe.c, src/spe_cycle.c, src/spe_module.c: `start_up` is main up to its forks, `fork_all` the
--             loop of forks, `master_process` is spe_master_process, and `cycle_init` and `module_init`
--             are spe_cycle_init and spe_module_init. Main.Signals has the flags that the signals of the master set.
--   Sock      src/spe_sock.c, src/spe_sock.h: `tcp_server`, `udp_server`, `sock_accept_timeout` and
--             `set_block` are spe_sock_*.
--   Rpc       src/spe_rpc.c, src/spe_rpc.h: requests. `check_token` is checkToken, `parse` the loop of rpcParse,
--             one function for each of its states; Rpc.Answer has `rpc_process`, `rpc_done` and `rpc_handler`,
--             which are rpcProcess, SpeRPCDone and rpcHandler; Rpc.Commands has the calls SpeRPC* that set a
--             server up. Rpc.Request is the request of a client.
--   Tpool     src/spe_tpool.c: the thread pool. `ThreadStep` are the steps of threadRoutine, `Step` those of all
--             threads and of a user in SpeTpoolDo and SpeTpoolDeinit, and `pool_init` is SpeTpoolInit.
--   Util      src/spe_util.c, src/spe_util.h: `save_pid`, `get_pid`, `remove_pid`, `become_daemon`, `current_time`,
--             `init_proc_title` and `set_proc_title` are spe_*.
--   Base      what these share: lists, blocks of memory, 32-bit words, C strings, and the answers of
--             system calls.
--   Tests     concrete inputs: an allocator, a kernel, a tree.
--
-- How the code is read. A function that reads or writes memory returns an Option; `none` is an
-- access outside the block. Bytes and words are natural numbers, and 32-bit results are cut (`% 2 ^
-- 32`) where the source computes with `unsigned`. `realloc`, `read`, `write`, the red-black tree and
-- the handlers are parameters, and so are epoll_ctl and the handlers of signals; the laws assumed of
-- them say what their documentation says: realloc keeps the common prefix, read returns at most what
-- it is asked for, the tree keeps its nodes in order, and epoll_ctl watches what it is told to when
-- it succeeds.
--
-- Bounds and fuel. `buf_expand` computes `25 * len / 16` in 32 bits, so sizes stay below 2^32 / 25
-- bytes where a bound is needed, and below 32 MiB in sequences of calls. The timer loop takes one
-- timer out each round, so the number of timers is enough fuel; the loop over the queue may go on
-- for ever, since handlers schedule tasks, and has a bound where the handlers add none. The split of
-- a buffer goes on by at least one byte each round, so its length and one more is enough fuel. The
-- reading of the options takes the number of lines to read as a bound, and is still reading when it
-- is used up; the parser of requests takes at least two bytes each round, so the length of its
-- buffer and one more is enough fuel; the loops of the master and of a worker take the turns that
-- they make.
--
-- Not modelled: shared memory and the log, which are system calls; the Lua binding and the tests;
-- and the copies of other libraries (the list macros, the red-black tree, cJSON, Lua). The RPC
-- server is modelled although the Makefile leaves it out: it calls buffers and connections by former
-- names, so its buffers stand as lists of bytes. The thread pool has one user in the model; with
-- several, the test of the free list outside its lock is a race.
pub mod Base
pub mod Buf
pub mod Io
pub mod Task
pub mod Epoll
pub mod Signal
pub mod Map
pub mod Worker
pub mod Module
pub mod Conn
pub mod Server
pub mod Opt
pub mod Rpc
pub mod Tpool
pub mod Main
pub mod Sock
pub mod Util
mod Tests
