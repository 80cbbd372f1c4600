-- ===== src/Lib.antt =====
-- Easysync: a server that tells the clients of a user when to synchronise their files.
--
-- The program's parts. Clients connect to the server over TCP and exchange lines of text. The
-- server (server/easysyncserver.cpp) keeps three parallel lists of its clients and a database of
-- users and hosts, which it reaches through server/dbmanager.cpp. A greeting registers a client
-- under its host name, a notification marks the other hosts of its user and asks those with a
-- connection to synchronise, and an acknowledgement takes the mark away.
--
-- Which file models what.
--   Prelude, Text: shared names; `QString` as the list of its code units. Text/Format has `arg`,
--     `chop` and `remove`, Text/Scan the regular expressions and `toUInt`, Text/Numbers their
--     proofs on numerals, Text/Wire the codecs between the programs.
--   Database: SQLite. Schema has the two tables, Statements one constructor for each SQL statement
--     of server/dbmanager.cpp and its meaning, Literals the reading of string literals in the text
--     of a statement. Engine is the engine as a parameter: a statement may fail for reasons of its
--     own and then changes nothing. Reference is an engine that meets the assumptions.
--   DbManager: class DbManager, method by method under its name in snake case (isUserValid is
--     `is_user_valid`). Quote and Queries are the texts of its queries, Paths is initDbPath; the
--     other children hold the proofs.
--   Server: class EasysyncServer. A slot takes the server and returns it as it leaves it; what it
--     does to sockets is appended to `actions`. State is its state, Connections its slots for the
--     timer and for connections that come and go, Lists is QList, where a read outside of the list
--     is `out_of_range`; Messages has the lines of the protocol. readClient is `read_client`, and
--     its parts are `handle_line`, `handle_message`, `register`, `handle_over` and
--     `handle_notify_all`.
--   Client: class Client, one definition for each slot. State is its state and what its slots ask
--     for, Connecting its slots for the connection and the network, Watcher is subFolders and the
--     paths of QFileSystemWatcher. Phases and Progress hold the proofs on the runs of unison, over
--     the relation `Reaches` of the states that signals lead to; Retries and Reconnect those on the
--     timers by which a client gets its connection back; Watching those on the watcher, Requests
--     those on the server's requests and on the settings.
--   Service: class EasysyncService (server/easysyncservice.cpp) around the server, with the
--     constructor and the destructor of EasysyncServer. Arguments is the loop over the command
--     line, Starting has the proofs on start.
--   FileWatcher: class MFileSystemWatcher (client/qt/mfilesystemwatcher.cpp), by which the client
--     watches its folder on Windows, and its two engines. Hash is QHash, System what QFileInfo says
--     of the disk. Thread, Adding, Removing and Notifying are the engine for Windows
--     (client/qt/mfilesystemwatcher_win.cpp): its state and its threads, addPaths, removePaths, and
--     one round of run. Polling is the engine that compares the paths by a timer. Sound, Good,
--     Placing, Ready and Dropping hold the proofs on the engine for Windows that Calls puts
--     together for every sequence of calls; Handles, Moving, Closing and Ledger those on the
--     handles that it is given and closes; Synced, Members, Timeout, Rounds and Delivery those on
--     the polling engine and the lists of the watcher; Trip is the client's use of the watcher.
--   Exchange: a client and the server over one connection, where each reads what the other has
--     written. Greeting is the registration and the request that it may bring, Over the message
--     that ends a synchronisation, Notify the notification of one client and the request that
--     another gets, Numbers the number of a line as both ends read it; Requests has the proofs on
--     what the loop over the sockets writes.
--   Marks: who has to synchronise, told by what has happened: the contract of the server and its
--     database together. Its events are the messages of a notification and of the end of a
--     synchronisation; Events says which of them a line tells, Tables, Methods, Handlers and Lines
--     follow the mark of one host through the tables, DbManager, the handlers and readClient, and
--     History through all that can happen to a server, in any order. Registry keeps who has
--     registered from which socket apart from the lists of the server, and Traced has the histories
--     in which the lists agree with it; Delivery is a client that comes back after one.
--   Places: the socket numbers of the database as places in the lists of the server. Methods and
--     Handlers keep them in range, and History says of which histories that is true.
--   Fixtures, and the modules named Examples: concrete data, and the theorems at it.
--
-- Conventions. A socket is a number. A QTime is the number of milliseconds since midnight. A buffer
-- holds the characters that QString makes of the bytes received. What QChar says of characters past
-- ASCII is the parameter `Unicode`. The synchronised folder exists, and its tree is finite: a link
-- to a folder stands as that folder and leads to none above it. Disconnecting a socket is an
-- action; the signal that follows it is a call of `client_disconnected` of its own, after the slot:
-- Qt raises it later while data is left to write, and may raise it at once if none is. The rows of
-- a query come in the order of the tables. Every loop is a recursion on a list, so no fuel is
-- needed. Numbers do not wrap, but for the message number, which is read as 32 bits and kept in 16,
-- and the port of the service, kept in 16.
--
-- A HANDLE of Windows is a number too. What Windows answers to the requests for one is the list
-- `granted`; it gives no handle twice while it is open, which the relation `Step` of
-- FileWatcher/Calls says of every renewal of that list. A thread takes its mutex for a round, and
-- the calls lock it for their work on one path, but for the second loop of addPaths
-- (client/qt/mfilesystemwatcher_win.cpp:174), whose lock is a temporary that holds nothing. The
-- model has no round that comes into the work on one path: what it says of an engine is what it
-- does as long as none does, and races of that loop with a running thread are not covered. A thread
-- that is stopped has ended when its `wait` returns. Each thread has an event of its own, which is
-- compared with the handles of that thread only, so one number stands for each of them.
--
-- A text goes from one program to the other through codecs of Qt: `toUtf8` or a QTextStream, and
-- the QString that the other end makes of the bytes. They are the parameter `Wire` of Text/Wire, of
-- which only is known that it keeps ASCII; what is said of both programs together is said for ASCII
-- names.
--
-- Not modelled: log output, but for what the service logs; the wiring of signals, the tray's menu
-- and the dialogs of the client; main.cpp of both programs; on Windows the event of a thread, which
-- is taken to be created, and the engines of other systems, which are not part of the repository;
-- and the copy of the service library under server/qt, whose calls of start, stop, pause and resume
-- are those of Service.
pub mod Prelude
pub mod Text
pub mod Database
pub mod DbManager
pub mod Server
pub mod Client
pub mod Service
pub mod FileWatcher
pub mod Exchange
pub mod Marks
pub mod Places
pub mod Fixtures
