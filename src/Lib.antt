-- ===== src/Lib.antt =====
-- The server of a WiFi gateway: a controller of sessions, one for each IP, that lets hosts through
-- the firewall by running shell scripts, counts their time and quota down, and is driven over D-Bus.
--
-- Parts and files
-- - Session: the record and the constants of controller.h, and isExhausted and initSession.
-- - Controller: controller.cpp. Controller/State is the object with an explicit heap of records,
--   since the source keeps `Session *` in a QMap and the aliasing matters; Controller/Action is what
--   a method does to it, where `none` is an access to memory that is not allocated. Operations has
--   newSession to exhaustSession, updateSession, updateQuotaRemaining and the two removeSession;
--   Timer has tick, one function for each case of its switch; Settings has the setters, the getters,
--   cleanup and clearSessions; Script has the command lines; Calls lists the slots as data, so that
--   a run of the server is a list of calls; Lifecycle has the constructor and the destructor.
-- - Controller/Machine is not translated: it is the protocol of one session, without map and heap,
--   that Controller/Refinement compares the methods with. Controller/Lifetime is about the heap,
--   Controller/Access about what the controller has last asked for an IP, which is read off the
--   commands that were issued and their exit statuses, Controller/Values about what is true of every record (an
--   interface of predicates and their laws, that Bounds and Activity fill), Controller/Getters about
--   what the getters return, Controller/Timeline about many ticks, and Controller/Reentrancy and
--   Controller/Busy about slots that run while a script does. Equations has what the methods that
--   add and remove records compute to.
-- - Adaptor: controllerdbusadaptor.cpp and sessionexport.h. A QDBusArgument is the sequence of its
--   typed values. Adaptor/Register has the registration loops, Adaptor/Connect the constructor.
-- - RunCommand: runcommand/runcommand.cpp, as a state that the events of the process and of the
--   timer move. RunCommand/Hosting puts one runner in the place of a controller's host.
-- - FileWatcher: filewatcher/filewatcher.cpp, over an argument that says what file the name stands for
--   when a slot runs; FileWatcher/Opening has the constructor. FileWatcher/Rotation is not translated:
--   it says which slots run when something happens to the file or its directory.
-- - QuotaBeacon: quotabeacon.cpp; it feeds updateQuotaRemaining of the controller with the lines that
--   a FileWatcher emits, through the text that an expression captures in a line, a parameter there.
--   QuotaBeacon/Pattern has the expression itself, as a search, and QuotaBeacon/Capture says what it
--   matches; QuotaBeacon/Exhaustion goes on from the lines to the tick of the controller.
-- - Process: handle_signals.c, ec_simple.h and main.cpp. Process/Signals has handle_signals and
--   set_sig_handler as system calls on the mask and the actions of the process, each of which may be
--   refused; Process/Handler has the handler and sig_clean_up, and Process/Main has main. Signals have
--   the numbers of Linux. Process/Deliver is not translated: it says which signals reach the process.
-- - Qt: the parts of Qt that the code stands on. QString is its list of UTF-16 units, QMap a list
--   sorted by key, in the order that QMap iterates. Base has shared names and the conversions
--   between int and unsigned int. Witnesses runs the theorems on concrete inputs.
--
-- How the parts interact: each operation that opens or closes the firewall waits in
-- RunCommand::runCommandExec, whose event loop goes on to run other slots. In Controller the runner
-- is a parameter, a Host, which is an action on the whole controller: it may run any slots before
-- it returns. The theorems say which hosts they are about: one that runs no slot (`quiet`), one
-- whose result depends on the command only (`steady`), one that removes no session (`Calm`), or one
-- that runs given calls (`nested`), for which the runner is busy, its shell having started, and
-- refuses with -1.
--
-- A controller is in order (`Inv`) if its map is sorted, each key owns a live record of its own IP,
-- each live record stands in the map, and memory from `next` on is free.
--
-- Bounds and fuel: the loops run over lists, but for three. The registration loop has fuel 7, and makes
-- six tries at most, so that the fuel does not run out; the loop of `scan` has more fuel than there
-- are bytes to read, and takes one in each round; the digits of a number have one more unit of fuel
-- than its value. quint32 counters are numbers that are reduced modulo 2^32 where the source
-- can wrap, and the conversions between qint32 and quint32 are written out.
--
-- Bytes: a QByteArray that becomes a QString, a line of the log or the output of a command, is
-- read up to its first NUL, as Qt 4 does. readAll reads the standard output of a command only.
--
-- Not modelled: the log (dumpSession with it) but for the last line of a fatal error, the macros
-- of ec_simple.h that nothing uses, QString::trimmed, QChar::isSpace and the formatting of qFatal
-- (all parameters), the web front end, and the scripts behind the commands: their exit statuses
-- are a parameter, and what they do to the firewall is left open. The mask of the process is what
-- sigprocmask was asked for; the kernel keeps SIGKILL and SIGSTOP out of it. A slot cannot run
-- between the exit of the event loop and the return of exec, and the process is taken to be dead
-- after kill and waitForFinished.
pub mod Base
pub mod Qt
pub mod Session
pub mod Controller
pub mod Adaptor
pub mod FileWatcher
pub mod QuotaBeacon
pub mod RunCommand
pub mod Process
pub mod Witnesses
