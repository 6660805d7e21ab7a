-- ===== src/Lib.antt =====
-- pplMe: a server that finds people who live near a user and are of similar age.
--
-- The engine (src/libpplmeengine) keeps people in the cells of a grid over the globe. A find walks
-- over the grid in growing diamonds round the user's cell, hands each cell to a pool of worker
-- threads, and collects what they find until it has enough. The server (src/pplmed) fills the
-- engine and answers requests that come as framed protobuf messages (src/libpplmenet,
-- src/libpplmeproto).
--
-- Files:
--   Common: Boolean tests, the conditional, Option steps, lists and signed integers.
--   Core: src/libpplmecore and discriminated_value.h. Core/Outside holds what the program uses of
--     float, boost::gregorian and boost::uuids as records of operations, with records of laws.
--   Repository: ppl_repository.h, the interface between PplSlurper and the providers, which
--     Pplme/Repository, Prototype/Repository and MyFirst/Repository fill.
--   Pplme: pplme_matching_ppl_provider.cc. Grid is CellLocator, the indices and CheckOffsets;
--     Sqiral the walk; Cells the sorted cells; Provider the members, the constructor and AddPerson;
--     Find the threads of a find (TryFindPpl, TryFindPplAsync), with any worklette run at any time,
--     and the caller's sleep on the condvar until notify_all or a spurious wake-up;
--     Threads the finds on the threads of the pool, turn by turn; Matching FindMatchingPpl as a
--     whole, where Walk says which cells Sqiral gives it, Holding what a provider holds, Answer
--     what a find returns, and Bags forgets its order.
--   Pool: NoddyWorkerPool, which pplme_matching_ppl_provider.cc and
--     prototype_matching_ppl_provider.cc hold alike. Refinement has the abstract queue, Awake the
--     notifications, Shutdown the destructor.
--   Prototype: prototype_matching_ppl_provider.cc. Grid, Distance and Nearby are its grid, the
--     distances and GetNearbyCells; Walks says where these walks go; Provider is the members,
--     AddPerson and the search of a cell; Find the threads of a find; Matching FindMatchingPpl.
--   MyFirst: my_1st_matching_ppl_provider.cc. Slurper: ppl_slurper.cc.
--   Pplmed: HandlePplmeRequest of src/pplmed/server.cc, and the request and the results of
--     Pplme() in src/pplmec/pplme.cc. Daemon is src/pplmed/main.cc, and the constructor and Go of
--     server.cc; Daemon/Serves is how it comes to serve, Daemon/Sound and Daemon/Filled what the
--     provider is filled with.
--   Pplmec: src/pplmec/main.cc and the whole of Pplme().
--   Conversation: pplmec and a connection thread of pplmed together. Matches has the provider and
--     its pool at the other end.
--   Proto: the messages of the .proto files and the conversions.
--   Net: Message is message.h, Connection detail/connection.cc, Client client.cc, and Server
--     single_shot_server.cc. Client/Session is the state of a client over its calls, Server/Life
--     that of a server from Start to Shutdown, Server/Answers what a connection's thread sends,
--     and Server/Port the acceptor and its port.
--   Tests: the theorems at concrete inputs, over the platform of Tests/Platform.
--
-- How the code is modelled. A CHECK that fails, an exception that nothing catches and undefined
-- behaviour are `none`, or `crashed` where threads are involved. The vector of cells is its size
-- and a function from indices. The threads of a find are steps of a state: a step is what a thread
-- does between two waits or lock blocks, and any thread may go next. Any number of finds share a
-- pool, which is at rest before them. Each name of a C++ function
-- has the same words here: `try_find_ppl` is TryFindPpl. An `int` of an age is checked for 32 bits;
-- grid indices stay far below 2 ^ 31 for the resolutions of 1 to 100 that pplmed accepts. The
-- prototype's differences of size_t wrap at 2 ^ 64.
-- A find's date_provider_ gives the same date for all of its cells, and the prototype's double
-- intermediates are of the one type of floats. A socket says whether remote_endpoint() throws.
--
-- Fuel. `sqiral` has 361 * res + 1 rounds, one for each offset that CheckOffsets can let through.
-- The loops of GetNearbyCells have 360 * res + 2 rounds in the prototype's find: one for each row
-- or column of the grid, and two to see that the walk is over. `populate` takes its fuel as an
-- argument; a round takes at least a character of the stream. `drive` has the turns that
-- `turns_ahead` counts.
--
-- Not modelled: logging, the parsing of command lines and the text of the output, sockets and
-- threads beyond the operations above, and the code that protoc generates.
pub mod Common
pub mod Core
pub mod Repository
pub mod Pplme
pub mod MyFirst
pub mod Pplmed
pub mod Pplmec
pub mod Conversation
pub mod Slurper
pub mod Pool
pub mod Prototype
pub mod Proto
pub mod Net
pub mod Tests
