-- ===== src/Lib.antt =====
-- A verification library for btdht, a node of the BitTorrent distributed hash table in C++.
--
-- The program answers and sends bencoded messages over UDP, keeps the contacts that it learns in a
-- routing table ordered by the rank of their ids against its own, and tracks each request that
-- it sends by a transaction.
--
-- Files
--   Prelude          shared names, Boolean tests, lists; Prelude/Bytes has blocks of memory (`store`
--                    is memcpy, `Holds` says what stands where), Prelude/Decimal what printf prints
--   Sp               the buffer and the functions that the program takes from the `sp` library, which
--                    is not in the repository: the record `Sp` has the functions, `SpLaws` what the
--                    program relies on, and every definition that calls one of them takes an `Sp`
--   Bencode          src/bencode.cpp and `dict` of src/bencode.h
--     Encode         the writers of namespace bencode::e; a writer gives back whether it succeeded
--                    and the buffer. `restoring m` is a body that saves the cursor on entry and puts
--                    it back before each `return false`, `m then k` is `if (!m) return false; k`
--     Decode         the readers of namespace bencode::d, which give back an option and the buffer;
--                    the overloads of `pair`, `value` and `pair_ref` have names of their own
--     Values         tokens, contacts, lists and dictionaries, of the same files
--     Offset         src/bencode_offset.cpp: the wildcards, compact nodes and peers; Compact and Nodes have
--                    what the nodes' readers keep, Plain and Wildcards what is passed over
--     Generic        the readers of src/decode_bencode.cpp, over `pop_front` and `peek_front` of the `sp`
--                    library as the record `Front`; Keys and Strings have what they read
--     Spec           the texts of the protocol and the contract of a writer
--     RoundTrip      writers against readers
--     Tree           numbers, strings, lists and dictionaries with their texts
--     Stream         the writers of src/encode_bencode.cpp, over `sp::write` as the record `Stream`;
--                    Correct and Pairs have the texts that they write
--   Id               node ids of src/util.cpp: `bit`, `rank`, `is_valid`, `set_bit`
--   Address          addresses, contacts and small keys of src/util.cpp with their comparisons, as with
--                    IP_IPV6 defined; Order has the theorems on them
--   Routing          the routing table of src/routing_table.cpp: `is_good`, `reset`, `alloc_RoutingTable`;
--                    the `in_tree` and `parallel` pointers are the order of two lists, and a contact's
--                    address is that of its table and its place there
--     Insert         `find_node`, `bucket_insert`, `__make_routing_table` and `insert`
--     Bucket         what `bucket_insert` finds and writes
--     Invariant      the well-formedness of the levels; Valid and Correct keep it through `insert`
--     Find           what a search finds after an insertion; RoundTrip has `insert` before `find_node`
--     Absent         the steps that make a table add no contact; Stored has what `find_node` gives back
--     Success        where `insert` takes a contact; Room has the lemmas on tables with room
--     Losses         where contacts go uncounted and tables out of reach
--     Closest        `multiple_closest_nodes`, with `sp::CircularBuffer` as a parameter, the record `Ring`
--   Election         the vote of src/ip_election.cpp on the node's own address, with the array and the
--                    Bloom filter as parameters; Tally has what votes change, and who wins
--   Krpc             the messages: the frame of src/krpc_shared.h; Frame has what it writes
--     Request        the requests of src/krpc.cpp, and what each writes
--     Response       the responses and errors of src/krpc.cpp; Correct has what each writes
--     Private        the private messages of src/priv_krpc.cpp: the requests, the statistics, the dumps
--                    of the scraping and the event; Fields has what they carry, Parts what their parts write,
--                    Compact the compact lists
--     Parse          the parsers of src/krpc_parse.cpp: Request and Response have a record and a round of
--                    readers for each message, Receive the frame as src/krpc.h reads it; Rounds, Fields,
--                    Wants, Correct, Searches, Peers, Frames and Received have what they take
--     Query          a request as it is sent and as it is received; RoundTrip has the one after the other
--   Transactions     src/transaction.cpp, with the types of src/shared.h: the pointers of the circular list
--                    of `Client::buffer`, and the operations on them
--     Links, Cycle   chains and cycles of pointers, and what a write does to them
--     Ring           the list as a sequence
--     Order          sequences in the order of the time sent, and how many wait
--     Queue          `mint_transaction`, `consume_transaction`, the timeouts and the questions
--     Invariant      the list in order, and that giving up, consuming and minting keep it so
--     Mint, Outcome  what `mint_transaction` does, and when it succeeds
--     Consume        `consume_transaction`, and the two one after the other
--     Turn           one turn of the loop that gives up late transactions
--     Eager, Awake   the loops over the list, and the step of src/dht_interface.cpp that runs them
--     Start, Fresh   the constructor of `Client`, and what it leaves
--   Db               the tokens of src/db.cpp; Tokens has how long one is accepted
--
-- Bounds. Bytes, sizes and cursors are natural numbers. Sizes are those of objects in memory, so
-- their sums do not wrap; a difference of sizes is written where the code has checked the order.
-- Times have 64 bits and their sums do not wrap. The loops over the list of transactions run on fuel,
-- and end with fuel for each of its at most 1024 transactions.
-- Counters of votes and of the contacts of a bucket have 64 bits and do not wrap either; those of
-- all contacts have 32 bits and wrap. The ring of a search has thirty-two places.
-- The loops of the parsers run on fuel, and a parser whose fuel runs out gives back no result; the
-- theorems on them give enough. Out-of-range reads of a block give 0.
-- An address and a port are written byte for byte, the highest first, as `htonl` and `htons` leave
-- them on a machine with the low byte first.
-- A decimal numeral has at most twenty digits, since no number is wider than 64 bits. The digit
-- array of `peek_numeric` has room for 32 bytes, and its loop runs at most that often.
--
-- Not modelled: logging, sockets, port mapping, files and command lines, which are input and output;
-- the hash functions, which are a third party's. Of the writers, `value` and `pair` of `int16_t` are
-- left out, whose format `%h` is incomplete, and the responses `dump` and `dump_db` of
-- src/priv_krpc.cpp. What an out-parameter holds after `false` is left open, and so is an
-- assertion's failure.
pub mod Prelude
pub mod Sp
pub mod Id
pub mod Bencode
pub mod Address
pub mod Routing
pub mod Election
pub mod Krpc
pub mod Transactions
pub mod Db
