-- ===== src/Lib.antt =====
-- The collection service: it stores devices, data points and collected values in SQLite, collects
-- from each device in a thread of its own, and takes commands as JSON text, directly or over
-- HTTP.
--
-- src/util/JsonUtil.cpp is Util/Json, include/model/Models.h is Models. The command interface,
-- src/command and src/CommandProcessor.cpp, is Command: Command/Field reads a field out of a
-- text, Command/Parser a device, Command/Serializer writes a result, and Command/Processor has
-- the handlers, one function per method, and handle. src/http is Http: Http/Adapter the command
-- that a request stands for, Http/Target the reading of a path and its parameters, Http/Router
-- the routes, and Http/Json the bodies.
--
-- The storage, src/db and src/SQLiteManager.cpp, is Db. Its state is a record of the three tables
-- of scripts/init.sql, the tables at BEGIN of an open transaction, and a count of the calls of
-- SQLite; an argument says which call fails. Db/DeviceTable, Db/PointTable and Db/ResourceTable
-- have the repositories, with a function on the tables for each statement of SQL; Db/Manager has
-- the methods of SQLiteManager, Db/Schema its constructor, and Db/Registry the contract of the
-- methods on devices: a function from names to the fields of a device. Methods are in the monad
-- of Prelude/Exec, which keeps the state where a method throws. src/model is ModelFile:
-- ModelFile/Parser and ModelFile/Repository.
--
-- The collection, src/task and src/DataTask.cpp, is Task. Task/Query and Task/Response are the
-- text of a query and of its response; Task/Status is DeviceStatusStore, its stop flags numbers
-- into a function; Task/Worker has the world that all of it works on: the database, the status
-- store, the flags and the workers that run. Task/Cycle is the loop of runDeviceTask, a pass at a
-- time, and Task/Sleep the wait behind it, Task/Control the methods startDeviceCollect,
-- stopDeviceCollect, startAll and stopAll. Task/Steps is the process as a sequence of such steps,
-- and Task/Race takes a start apart into its calls of the status store, for starts that overlap.
--
-- src/driver is Driver: Driver/MockServer the answer of the mock driver to a query, as text, with
-- the reading of it by the collection, and its sessions, and Driver/Client the connection of a
-- client. Server is the life of the two servers, src/HttpServer.cpp and that of the mock driver,
-- with Http/Session the sessions of the first. src/main.cpp is Program: the project's directory,
-- and in Program/Modes the modes of main, whose parts it puts together.
--
-- Prelude has what all parts share, and StdString the functions of std::string that the program
-- calls, std::to_string and std::stoi among them. The digits of a number take the number itself
-- as fuel, which a division by ten for each digit leaves enough of. The loop of Task/Sleep, which
-- is the sleep between two rounds, has interval / 100 + 2 as fuel, since a nap that is not the
-- last takes 100 ms. Recursion is else on a text or a list.
--
-- Arguments of the model are what the repository does not hold: the failures of SQLite and its
-- order of REAL values, the file system, std::stod and the printing of a double, the driver's
-- answers, the clocks, and in main what the other threads do, which act while main waits and
-- between a mode and the destructor of DataTask. Not modelled are the sockets of Boost, whose
-- results are arguments, the payload fields of a response, the closing of the database, logging
-- and the clocks. Of a file of the database Db/Schema sees the table Device and whether it has
-- the column Status. The Ids of rows are numbers without a bound, where the source reads an int.
-- A pass of a worker's loop is one step, and so is a call of DataTask up to its return or to a
-- join that waits: steps that overlap are taken apart no further than the methods but in
-- Task/Race, and the sleep stands between two steps. A join of a worker whose flag is up ends
-- that worker; what its last round still does is a step in front of the join. A join of a worker
-- whose flag is not up waits, until the worker has failed five times in a row or the flag is
-- raised; what the caller goes on to do then is not followed.
pub mod Prelude
pub mod StdString
pub mod Util
pub mod Models
pub mod Command
pub mod Db
pub mod ModelFile
pub mod Task
pub mod Http
pub mod Driver
pub mod Program
pub mod Server
mod Tests
