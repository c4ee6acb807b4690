-- ===== src/Lib.antt =====
-- flexetl moves JSON logs into ClickHouse tables. Handlers, one thread each, take files from a
-- queue: `json2click` parses lines of JSON into a table of columns in memory and saves it as a
-- `.cdb` file; `click2db` loads such files and inserts them into the database; nodes and pipes
-- pass the files from one handler to the next.
--
-- What is modelled, and where:
-- - ClickTbl: src/flexetl/clicktbl.h, clicktbl.cpp and clicktbl.inl. Value, Column and Table are
--   the values, `ClickColumn` and `ClickTable` in memory (`append`, `finishAppend`, `flushData`,
--   `flushTbl`); Stream and Save are `storeValue` and `save` over a device with limited room;
--   Load is `restoreValue` and `load`; Getters is `getString` to `getInt8`; Memory is what
--   a `Value` owns on the heap, with moves and destructors, and `ClickColumn` on it. Encoding
--   describes the file format by itself, Fuel is about the nesting of arrays, RoundTrip about
--   `save` and `load` together.
-- - Json2Click: src/flexetl/json2click.h and json2click.cpp. Event is what the JSON reader
--   reports, Handler is `MyHandler`, Line what `lifeProc` does with a line, State is `dump`,
--   LifeProc is `lifeProc` by rounds of its loop, Init is `init` and `doProc`. A `Value` that
--   `MyHandler` appends goes to `ClickTable::append`; `dump` calls `ClickTable::save` and
--   `flushTbl`.
-- - Click2Db: src/flexetl/click2db.h and click2db.cpp. Convert is `column2ClickColumn`, Block is
--   `fillTable`, State is `Click2DB` with `sendTable` and `descibeTable`, LifeProc is `lifeProc`
--   by rounds of its loop, Init is `init`. It calls `ClickTable::load`.
-- - Nodes: src/flexetl/nodes.cpp, pipeline.cpp and pipeset.cpp. Create is `create` and
--   `makeHandler`, Params the parameters of a node and how `init` makes its directories and
--   connects its counters, Tree is `init` and `start` on the tree of
--   nodes, Sub is `subNode` and `subHundler`, Pipes is `doProc` of the two pipes, MoveFile is
--   `moveFile`. A handler is a parameter.
-- - FlexEtl: src/flexetl/flexetl.cpp. Expand is `expandConfig` with its two passes, Init is
--   `init`, which calls `create`, `init` and `start` of Nodes.
-- - Watcher: src/flexetl/watcher.cpp. `lifeProc` over the bytes that inotify gives, with the
--   callbacks as functions on a state of everything; Buffer describes these bytes. Nodes.Start is
--   `PipeBase::start` with `Node::watch`, which adds such a callback; Paths is what both use of
--   paths.
-- - Backuper: src/flexetl/backuper.cpp, by rounds of `lifeProc`; the file system is a map.
-- - Metrics: src/stem/metrics. Counters are the three kinds of counter, Name is `getName`,
--   Registry is `connect` and `agregateProc`, Send is `sendProc`. Its texts use the printing of
--   ClickTbl.Getters.
-- - Delivery puts Json2Click and Click2Db together: the files that one saves are those that the
--   other loads. Its Sender is a round of the sender in which nothing fails.
-- - Main: src/flexetl/main.cpp, src/stem/pid_file.h and src/stem/spdlog_init.h. PidFile is the
--   constructor of `PidFile`, Logging is `spdlogInit`, Run is `main` with its loop over the
--   signals; PidFile.Exclusion describes processes that start and end as a step relation.
-- - JsonTest: src/jsontest/main.cpp, which writes test files for json2click.
-- - Queue is the queue between the threads, StdMap is `std::map` with `std::string` keys, Result
--   the results of calls that may throw, Prelude the shared names.
--
-- Conventions. An `int` that is read from a file is a signed number of 32 bits (ClickTbl.Int32);
-- a `size_t` count of rows or bytes in memory is taken not to reach 2 ^ 64, and counts of saves
-- and of lines not to reach 2 ^ 31. A number in a value is its 64 bits. `Result.fault` stands for
-- undefined behaviour: an overrun buffer, a `bool` that is neither, a null pointer or an index
-- past the end. An exception is `Result.throws`, without the text of its message. Log messages
-- are left out.
--
-- Fuel. `load` bounds the depth of nested arrays by one more than the length of the file; each
-- level reads at least four bytes, so that is enough. `lines` is given as many reads as the file
-- has bytes; each read takes at least one; the watcher's loop likewise, with one step for each
-- byte that was read. `column2ClickColumn` may call itself once for each level of the type of the
-- column.
--
-- Parameters. The JSON reader (contrib/rapidjson) is a function from a text to the callbacks that
-- it makes and its error, if any. What the queue, the clock, `fopen` and `moveFile` answer is
-- given to `round`, a list of answers for a whole run. A stamp is a second of the clock and a
-- number: the code names the file by the local time, which is the same as long as the local time
-- is not set back.
--
-- What the database, its client (contrib/clickhouse-cpp) and the other threads do in a round of
-- the sender is given to it likewise; `CreateColumnByType` and the operations of a column are a
-- record (Convert), and what the proofs rely on of them are records of laws: each `Append` adds a
-- row, a new column is empty (`Counts`), and the type of a column inside another is less deep
-- (`Nests`). Floating point, the calendar and `inet_addr` are a record too (`Platform`). An entry
-- that the queue gives may be any one, since the queue keeps no order between threads.
--
-- The settings (contrib/libconfig) are trees and look-ups, the values on the command line
-- (contrib/gflags) a function, and its parser another, which may end the process. Where `init` and
-- `start` meet the file system and the metrics, exceptions are among the answers. What directories
-- hold, what inotify and the sockets answer and the clocks are given to the operations. The calls
-- on the pid file (Main.PidFile) are a record, with the documented laws of the lock and of the
-- file's bytes as records of their own.
--
-- Not modelled: a file that `doProc` of click2db cannot copy to its directory; the memory of a
-- `Value` outside a column of a table; the mask of the signals, the messages of the log and the
-- sizes of its files; what is in contrib/, which is other projects' code. A read error on an input
-- file is left out, since `feof` never becomes true then and the loop does not end.
pub mod Prelude
pub mod Result
pub mod StdMap
pub mod Queue
pub mod ClickTbl
pub mod Json2Click
pub mod Click2Db
pub mod Nodes
pub mod Metrics
pub mod Paths
pub mod Watcher
pub mod Backuper
pub mod FlexEtl
pub mod Delivery
pub mod Main
pub mod JsonTest
