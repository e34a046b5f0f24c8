-- ===== src/Lib.antt =====
-- Verification of mysqlpcap, which reads the MySQL traffic of a packet capture, keeps statistics of
-- its queries, records them into a replay file and replays such files.
--
-- The parts of the program and how they meet. mysqlpcap.cc reads a capture packet by packet and gives
-- each to `Mysql_stream_manager::process_pkt` (mysql_stream_manager.cc). The manager finds the size of
-- the link header (pcap_detect.cc), gathers IP fragments (ip_stream.cc), finds the `Mysql_stream` of
-- the client by its address and port, and appends the TCP data to it (mysql_stream.cc). A stream cuts
-- the data into MySQL packets (mysql_packet.cc), pairs a query with the end of its answer, and hands
-- the query back to the manager, which names it by the user's patterns (query_pattern.cc), counts its
-- time under that name (`Query_stats`) and under its tables (table_stats.cc), and keeps the slowest.
-- Queries are written to a replay file on the way, which `process_replay_file` reads again.
--
-- The files, with the code that each models:
-- - Base and its children: names of the libraries that the others share, tests on numbers, lists,
--   signed numbers, and `Run`, the results of stateful code: a value and a state, an exception, a
--   fault (a null or freed pointer, a read out of bounds, a failed assertion), or no fuel left.
-- - Wire: the macros `int2store` to `uint8korr` of common.h.
-- - Detect: `is_valid_ip_header` and `detect_eth_header_size` of pcap_detect.cc.
-- - Pattern: `parse_re_part` and `param_info::add_query_pattern` of mysql_stream_manager.cc,
--   `Query_pattern::apply` of query_pattern.cc, and `Mysql_stream_manager::get_query_key`.
-- - Files: `read` and `write`, a parameter, with what POSIX says of regular files.
-- - Packet: `Mysql_packet` of mysql_packet.h and mysql_packet.cc, and `Perf_stats` of common.h.
-- - Replay: `replay_write` and `replay_read` of mysql_packet.cc.
-- - Stats: `Query_pattern_stats` and `Query_stats` of mysql_stream_manager.h and .cc.
-- - Tables: `Table_stats` of table_stats.h and table_stats.cc, and in Tables/Simple the parser that
--   the build can choose with USE_SIMPLE_PARSER.
-- - Fragments: `IP_stream` of ip_stream.h and ip_stream.cc, on a heap.
-- - Sys: the state of a manager with its streams, on a heap of packets; options and libraries.
-- - Stream: `Mysql_stream` of mysql_stream.h and mysql_stream.cc: Stream/Append is `append` and
--   `append_packet`, Stream/Complete is `handle_packet_complete` with the manager's
--   `register_query`.
-- - Manager: Manager/Text is `strncasestr` and `could_be_query`, Manager/Capture is `process_pkt`,
--   Manager/ReplayFile is `init_replay_file`, `find_or_make_stream` and `process_replay_file`.
--   Manager/Shutdown is `finish_replay`, `cleanup` and the state of `print_query_stats`, and
--   Manager/Explain is `print_slow_queries` with `explain_query` and `connect_for_explain`.
-- - Output: the text of the statistics: `Query_stats::print` of mysql_stream_manager.cc and
--   `Table_stats::print` of table_stats.cc. Output/Read is a reader of such text.
-- - Thread: the replay thread of a stream, `run_replay` with `db_query` and `db_connect` of
--   mysql_stream.cc and the schedule of mysql_stream_manager.cc: Thread/Query is a query, Thread/Steps
--   the thread as a state machine, Thread/Rules what is relied on of the MySQL client library.
-- - Program: mysqlpcap.cc: Program/Args is `parse_args`, Program/Usage is `print_usage`, Program/Loop
--   and Program/Main are `process_pcap_file`, `process_replay_file`, `process_file` and `main`.
-- - Examples: runs at concrete inputs, and the theorems applied to them.
--
-- How state and numbers correspond. A method that changes an object is a function from its record to
-- a new one, or a step of `M (Sys env)` where packets on the heap change. A pointer is a number, and
-- the heap a function from it to what lives there; a freed address holds nothing, and is not used
-- again. Numbers of the program's widths are natural numbers with their wrap-around written out where
-- the code relies on it. A time of type double is a whole number of microseconds, and DBL_MAX one that
-- is as large; the rounding of floating-point numbers is not modelled. The host is little-endian.
--
-- The invariant. Sys/Sound says when a state is sound, and when a step keeps it so; the modules called
-- Sound below Stream and Manager follow the code with that.
--
-- Fuel. `append` has the length of its segment, since each round takes a byte at least. A loop over
-- packets has one round more than packets were ever made, and a loop over fragments as many as were
-- ever made, since a list holds each of them once. `process_replay_file` is given its fuel, the number
-- of records at most.
--
-- The thread and the reader share a stream. A step of the thread leads from one place where it takes
-- a lock or may wait to the next, with the packet it stands at in its phase, so that actions of the
-- reader can stand between any two steps. What the locks themselves rule out is not modelled.
--
-- Not modelled. Messages, and what is printed of the slow queries and their plans. The conversion of
-- numbers to text is a parameter. PCRE2 is a parameter with the behaviour that its manual gives to
-- `pcre2_substitute`. The MySQL client library, libpcap, getopt and the clock are parameters. The
-- parser that Bison generates from sql_parser.yy is a parameter too: the tables it reports for a
-- query.
pub mod Base
pub mod Wire
pub mod Detect
pub mod Files
pub mod Output
pub mod Packet
pub mod Replay
pub mod Stats
pub mod Tables
pub mod Fragments
pub mod Sys
pub mod Stream
pub mod Manager
pub mod Thread
pub mod Pattern
pub mod Program
pub mod Examples
