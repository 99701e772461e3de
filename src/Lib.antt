-- ===== src/Lib.antt =====
-- A verification library for cashmere, a ledger that devices keep together: each device records
-- amounts in a journal, journals pass entries to one another through a network of brokers, and a ledger
-- computes the balance from the entries that have arrived.
--
-- How the parts interact. A clock (cashmere/crdt/src/clock.cpp) counts, for each device, the events
-- that have been seen. An entry (cashmere/crdt/src/entry.cpp) is an amount with the clock of its event
-- and, for an edit, the clock of the event that it alters. A ledger (cashmere/crdt/src/ledger.cpp) takes
-- a list of entries, decides for each transaction which entry stands, and keeps the sum. A broker
-- (cashmere/src/hub.cpp) has numbered connections, to itself at 0 and to other brokers from 1, passes an
-- inserted entry on to all but its sender, and tells its neighbours which devices it reaches. A journal
-- (cashmere/src/journalbase.cpp and cashmere/plugins/src/cache.cpp) is a broker that also records
-- entries, each only if it is the next event of its device.
--
-- The files:
-- - Base and Base/Int: names and lemmas that all share, and integers over the native naturals.
-- - OrderedMap: std::map as a list whose keys increase; OrderedMap/Laws has its lemmas.
-- - Clock: Clock of cashmere/crdt/include/cashmere/clock.h. The functions have the names of the methods
--   (merge, tick, smaller_than, concurrent, valid, is_next). Counts are of 64 bits and tick wraps.
--   Clock/Merge, Clock/Causality and Clock/Advance have the theorems, Clock/Lexicographic the order of
--   operator<, by which clocks are keys of maps.
-- - Entry: Data and Entry, with their comparisons. Amounts are integers without a bound; Ledger/Bounds
--   says when the sums fit an int64_t.
-- - Ledger: the constructor (from_entries), Evaluate, Replaces and Balance. `none` is the exception that
--   `at` throws. Ledger/Rows says what one entry does, Ledger/Balance what the balance is, Ledger/Swap
--   and Ledger/Convergence that the order does not matter, Ledger/Conflict when the conditions of that
--   hold and when not, Ledger/Redelivery that a repeated entry counts once.
-- - Text: std::istream as a record of what is unread and the two flags, the extraction of numbers, and the
--   Read helpers of cashmere/utils/src/fileutils.cpp. A parser is a Step that also says what it has
--   written. Text/Clocks and Text/Entries are the text forms of clock.cpp and entry.cpp, Text/Numbers,
--   Text/RoundTrip, Text/Termination and Text/Printers their theorems.
-- - Files: a file system as a function from paths to texts, Filename, LineCount and SeekToLine.
-- - JournalFile: save, entry and entries of cashmere/plugins/src/file.cpp; JournalFile/Lines,
--   JournalFile/Log and JournalFile/Saved relate the files to a log of entries for each device.
-- - Broker: the state of a network (World), of a broker (Node) and of a connection (Link), and the monad
--   M of the operations. Broker/Connection has the methods of Connection, Broker/Provides what a broker
--   reads of its own state, Broker/Insert, Broker/Query, Broker/Topology and Broker/Relay the operations of
--   hub.cpp, journalbase.cpp and cache.cpp, and Broker/Dispatch the calls of virtual methods from broker to
--   broker and the append family of cashmere/src/brokerbase.cpp. Broker/Growth and its children carry the
--   invariant of a network, Broker/Refusal what a journal refuses, Broker/Lone a journal by itself,
--   Broker/Answers what a journal answers to a query, Broker/Nearest which port relay takes and Broker/Routes
--   what becomes of the data, Broker/Advertised what UpdateProvides makes of the ports and Broker/Offers
--   what a broker hands to a neighbour, Broker/Versions the clocks that it knows of each
--   device, Broker/Origin what a connection reads of the other end, and Broker/Printing has the text forms.
--   Broker/Shape is what insertion leaves alone in a network: the class of each broker and where its
--   connections lead. Its children say when insertion ends (Insertion, Ends), when it does not (Endless), and
--   where an entry gets (Passage, Hub, Reach), which journals record it (Waiting, Arrival, Delivery, Append), and
--   what two journals then have in common (Agreement). Broker/Additions is what insertion writes into entries.
-- - Command: Command::Read of src/cli/command.cpp, with its round trip. Command/Options is the constructor of
--   Options in src/cli/options.cpp; what getopt finds is its argument.
-- - Store: getOrCreate, insert and stub of cashmere/src/brokerstore.cpp and cashmere/src/brokerbase.cpp; the
--   plugins and the schema of a url are parameters. Store/Again has its theorems.
-- - Program: the loop of RunService and RunCommand of src/cli/main.cpp, on the lines that are typed; the calls
--   of the broker are an interface. Program/Ending says how the loop ends, Program/Main is main, and
--   Program/Help the table of commands. Command/Comparison has the comparisons of commands and options.
-- - Url: ParseUrl of cashmere/utils/src/urlutils.cpp, the fields of a broker that come from its url
--   (cashmere/src/brokerbaseimpl.cpp), and the parts of cashmere/src/brokerbase.cpp that read them. What
--   std::regex_search finds is a parameter, and Url/Search states what the expression finds in urls.
--   Url/Numbers is std::stoul on a printed number, Url/Wrapper the store of wrappers
--   (cashmere/src/wrapperstore.cpp) with the start and stop of a runner, and Url/Made what comes of the urls
--   that src/cli/main.cpp makes.
-- - Grpc: the messages of grpc/proto/proto/cashmere.proto and google::protobuf::Map as an interface with its laws;
--   Grpc/Maps fills such maps and reads them in any order. Grpc/Convert has grpc/utils/src/grpcutils.cpp,
--   Grpc/Stub the class of grpc/plugins/src/grpc.cpp, Grpc/Runner the handlers of
--   grpc/runner/src/grpcrunner.cpp, Grpc/Service the calls between the two, and Grpc/Bridge what a stub does
--   whose calls arrive.
-- - The modules called Examples have tests and concrete inputs for the theorems.
--
-- Bounds and fuel. Brokers call one another without a bound in the source, and never return on a cycle
-- of plain brokers. `network fuel` bounds the depth of these calls; when it runs out the outcome is
-- `timeout`, which is not a result of the program. A journal that is connected to nobody needs a depth of
-- one, and an insertion as much as the longest way on from the broker has brokers, itself included; on a
-- round of plain brokers no fuel is enough. The theorem on runs holds for every fuel, of the runs that
-- end.
--
-- The loop of Clock::Read has as many rounds as the text has characters, and one more; each round reads a
-- character at least, so that they do not run out, which would be an outcome of its own.
-- Printing a number n has n + 1 rounds, and each divides it by the base.
--
-- Not modelled: what dlopen finds in a file, the regular expression library, the threads and the sockets of
-- the gRPC server, the making of temporary directories and random ids. The file system never refuses a
-- write. Pointers to brokers that were destroyed are not modelled: a broker outlives the operations on it.
pub mod Base
pub mod OrderedMap
pub mod Clock
pub mod Text
pub mod Files
pub mod Entry
pub mod Ledger
pub mod Broker
pub mod JournalFile
pub mod Command
pub mod Store
pub mod Url
pub mod Grpc
pub mod Program
