-- ===== src/Lib.antt =====
-- sepm-group: a chat program of a server and a client that talk by ZeroC Ice, with encrypted
-- messages, accounts in an SQLite table, and plugins that are loaded while the program runs.
--
-- The parts and the files that model them
--
-- - Prelude (with Tests, Lists, Texts, Effects): Boolean tests, lists over the native numbers,
--   texts as lists of byte values, and the monad `Eff`: a computation changes a state and returns a
--   value or throws, and what it changed before it threw stays changed. `bind_cases` splits a proof
--   at a step of such a computation.
-- - SdcHelper (Bytes, Ids): common/sdcHelper.h and .cpp, the conversions of byte sequences and the
--   parts of a user ID. Undefined behaviour, as a read behind the memory, is `none`.
-- - Sdc: the data types and exceptions of ice/SecureDistributedChat.ice, and all exceptions of the
--   program as one type.
-- - Database (Accounts, Laws, Memory, Complete): the users table. SOCI and SQLite are the parameter
--   `Soci` of four statements, with the laws of SQL (`IsLawful`): a statement fails and changes
--   nothing, or it acts on the rows as it says. `memory` is a table that meets the laws.
-- - Server (Outcome, Steps): the state that the server's methods share (the table, Ice, the log)
--   and `IceServerI` of server/IceServerI.h with its laws.
-- - Server/Authentication: `registerUser` and `login` of server/AuthenticationImpl.cpp
--   (`register_user`, `login`, and its end `open_session`), with Register, Login, Opening, Success
--   and Reliable for what they do.
-- - Server/Session: the methods of server/SessionImpl.cpp, with Delete and Owner for `deleteUser`
--   and Requests for the dispatch of all of SessionI.
-- - Server/System (Exposure): sequences of calls of all of them, and the sessions that they expose.
--   Server/Race: two registrations that interleave between their test and their insertion.
-- - Server/Interleaving (Calls, Growth, Vouching, Alone, Racing, Safety, Columns, Defined): calls as programs whose statements are steps, and threads that make such
--   steps in any order; any number of threads, of which the server has three. A session request is
--   one step.
-- - Server/Lifecycle (Entering): an account from its registration to its deletion, on a database
--   that does not fail. IceMocks: tests/include/IceMocks.h, with which four tests of tests/server
--   are instances of theorems.
-- - Server/Throws (Calls, Runtime): the `throws` clauses of ice/SecureDistributedChat.ice.
-- - Server/Runtime: what the server uses of Ice and of SOCI's pool, as the parameter `Runtime` with
--   its laws. Server/DbPool: common/DBPool.h and .cpp. Server/Callback:
--   server/ChatClientCallbackInd.h and server/ChatClientCallbackWrapper.h. Server/IceServer
--   (Construction, Lawful): server/IceServer.h and .cpp, the object that the servants know as an
--   `IceServerI`. Server/Main (Waiting, Serving): server/server.cpp.
-- - Client (Catching): client/client.cpp, with the destructors at the ends of the blocks.
-- - ProgramOptions: boost's options as a parameter, and the setting of a process. ExitHandler:
--   common/ExitHandler.h and .cpp; a process is its handler and the rest that the handler changes.
--   Config: common/config.h and .cpp, over an environment.
-- - Qca, Security (Keys, Aes, Files, Calls): common/Security.h and .cpp. QCA is the parameter
--   `Qca`; the laws say that a key is drawn with the bytes asked for, and that PEM texts and key
--   files give the keys back. That data comes back from an encryption is not stated: the code uses
--   the cipher with keys and vectors of sizes that QCA does not describe.
-- - Logging (Filtering, Threads, Names, Numbers, Printer, Times, Sinks): common/Logging.h and .cpp
--   and common/ThreadHook.h. The clock and the file names of boost are the parameter
--   `Surroundings`; a call runs under the logger's mutex, so it is one step.
-- - QMap: Qt's ordered map as a parameter with the laws of its manual.
-- - NotifyPipe: common/NotifyPipe.h and .cpp, over the parameter `System` of pipes and threads.
-- - FileWatcher (Events, Delivery, Finishing, Stopping, Owner): common/FileWatcher.h and .cpp,
--   `watch` from the bytes that inotify leaves in the buffer to the calls of the callback, and in
--   Owner the object that starts and joins its thread.
-- - ViewRefresher (Refreshing): common/ViewRefresher.h and .cpp, with the calls of the views
--   recorded.
-- - PluginManager (Trace, Steps, Loading, Lifecycle, Watched, Hello): common/PluginManager.h and
--   .cpp. The loader, the directory and the plugins are the parameter `Platform`; the calls of
--   dlopen, make_plugin, destroy and dlclose are recorded, and `Trace` is the order that such calls
--   must have. Hello is plugins/hello_world/hello.cpp. Watched is a manager with its FileWatcher.
-- - Tests: runs at concrete data, and the theorems at inputs that meet their hypotheses.
--
-- How the parts meet: the authentication object calls the table and Ice and exposes a session
-- object; a session calls the table; both use the IDs of SdcHelper. Security uses its conversions.
-- The plugin manager gets its notifications from the file watcher. The server object implements the
-- interface that the servants use, and the main function constructs it; the theorems about the
-- servants are applied to it there.
--
-- Bounds and fuel: an `int` has 32 bits; lengths that exceed it are undefined, which the
-- conversions make explicit. The counter of threads wraps around. The loop over the events in a
-- buffer runs on fuel, one more than the number of bytes that were read; an event has at least 16
-- of them, so that is enough when the events are whole or their names short, and `read_events`
-- says whether it was enough. The loop over `select` runs over a list of answers and says whether
-- it was left.
--
-- Not modelled: the Ice runtime, SOCI, QCA, boost and Qt, which are not part of the program, and the
-- copies of backward-cpp, gmock and gtest; threads, except for the calls of the server, the order of
-- notifications and what a watcher sees of its destructor; what a signal interrupts.
pub mod Prelude
pub mod SdcHelper
pub mod Sdc
pub mod Database
pub mod Logging
pub mod Config
pub mod ExitHandler
pub mod ProgramOptions
pub mod Qca
pub mod Security
pub mod QMap
pub mod NotifyPipe
pub mod FileWatcher
pub mod ViewRefresher
pub mod PluginManager
pub mod Client
pub mod Server
pub mod IceMocks
mod Tests
