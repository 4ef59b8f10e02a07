-- ===== src/Lib.antt =====
-- A verification library of BBServer, a bulletin board server whose peers agree on each change of the
-- board by two-phase commit.
--
-- The program. One thread (connection.cpp) selects on the sockets and puts events into a queue
-- (queue.cpp); a pool of threads (event.cpp) takes them out. A received line goes to one of three
-- functions of msg.cpp, by the role of the sender: a user, a peer that is our slave, or a peer that is
-- our master. They read and write the board file under a lock (semaphore.cpp), keep the clients and
-- the peers in two lists (list.cpp), number the messages (config.cpp) and talk to the peers (sync.cpp).
-- A WRITE or REPLACE goes to the peers as PRECOMMIT and COMMIT; their answers come back as events.
--
-- The files.
--   Base         lists, options, results, integers and Boolean tests; Fault holds what a call can end
--                with instead of a value: an exception of std::string or stoi, undefined behaviour, a
--                loop out of rounds, a wait that never ends, exit.
--   Text         what the sources use of std::string, stoi and to_string; Text/Search and Text/Decimal.
--   Types        the enumerations of common.h and sync.h, clientCB, syncServerCB, clientEventCB, sysCfg.
--   Board        the board file as bytes: READ, save_msg_write and save_msg_replace of msg.cpp.
--                Board/Abstract is the board as a list of messages, with the text of its file.
--   Conn         the table of connections and a round of the select loop, connection.cpp.
--   World        the global variables, and the system calls made so far with what each returned.
--   Clients      the list of clients of list.cpp; a pointer to a client is its address, a number that
--                new clients get in turn. Clients/Find is about loops that search it, Clients/Single
--                about the one client that waits, Clients/Shape about a client that goes.
--   Servers      the list of servers of list.cpp, and the broadcasts and connections of sync.cpp;
--                Servers/Broadcast, Servers/Connect, Servers/Config for init_sync_server_list, and
--                Servers/Nodes for the functions of the list that start-up and shutdown use;
--                Servers/Count is about how many servers are in a state, Servers/Links about what a
--                broadcast sends over their descriptors.
--   MsgNumber    alloc_new_msg_number, update_msg_number, get_last_line, load_msg_number of config.cpp.
--   Msg          Msg/Client is process_client_msg (Msg/Client/Refinement sets it beside a list of
--                messages that answers the same requests), Msg/Slave process_sync_slave_msg, Msg/Master
--                process_sync_master_msg, Msg/Strip the first lines of the last two. Msg/Master/Round
--                is about a whole round of answers, Msg/Master/Passed about what it leaves alone, and
--                Msg/Master/Orders about a round that the peers answer in any order.
--   Event        Event/Peers is accept and recv, Event/Commit the events of the two phases,
--                Event/Timeout the time-outs, Event/Handle the switch of handle_client_event.
--                Event/Keeping lists the changes that the handlers make (Rules) and follows them through
--                every handler; Event/Invariant and Event/Calm give it two properties of the world, and
--                Event/Invariant/History is any sequence of events, time-outs and select rounds.
--                Event/Halting is about handlers that come to their end, Event/Transaction about a
--                command of a user through both phases, Event/Replicas about a peer that follows it.
--   Semaphore    read_start, read_end, write_start, write_end of semaphore.cpp as steps of threads.
--   Queue        queue.cpp as steps of threads; Queue/Destroy is the loop that empties it at shutdown.
--   Config       config.cpp: load_config over the bytes of a file, Config/Options for load_option.
--   Service      connection.cpp: the listening sockets, the set-up of start_conn_service, the end.
--   Timers       sync.cpp: the timers and the handlers of their signals; Timers/Firing follows a time-out
--                of the master to the answers of the users.
--   Bootup       bootup.cpp: sys_load_config, sys_bootup, sys_terminate and the handlers of the signals,
--                made of the operations of the other files; Bootup/Restart follows the message number
--                from one run of the server to the next, Bootup/Serving the shared state from the start
--                of the server on.
--   Tests        sample values, and each theorem at a concrete input.
--
-- Choices. A handler is a function from the world to a result with a new world; the operating system
-- is a parameter (World.Os) that says what each call returns after the calls made before it. A loop
-- that repeats a search over the clients runs on a number of rounds and ends with `spinning` when they
-- are used up; the theorems on these loops say how many rounds are enough. The number of a message is
-- an int of 32 bits, and lengths of strings are size_t of 64 bits where the sources subtract.
--
-- Not modelled. Two handlers at the same time: a handler is one step, and only the lock and the
-- queue are interleaved. Signals during a wait (a handler of a signal is one step of its own), a
-- write that fails on an open file, and descriptors from FD_SETSIZE on. getopt (its results are an
-- argument), select, and what open and read give (an argument that has the text under each name).
-- In main of bootup.cpp daemon, bbserv.pid and the echo of the standard input, print_config and
-- all other printing. main.cpp, an old version that the Makefile does not build.
pub mod Base
pub mod Text
pub mod Types
pub mod Board
pub mod Conn
pub mod World
pub mod Clients
pub mod Servers
pub mod MsgNumber
pub mod Msg
pub mod Event
pub mod Semaphore
pub mod Queue
pub mod Config
pub mod Service
pub mod Timers
pub mod Bootup
pub mod Tests
