-- ===== src/Lib.antt =====
-- A model of the beldex storage server, with proofs about it.
--
-- The program. A master node belongs to a swarm, a group of nodes that all store the messages of the
-- users whose keys are nearest to the swarm's id. Block updates tell a node which swarms there are
-- (httpserver/swarm.cpp). Clients send requests, which a rate limiter may refuse
-- (httpserver/rate_limiter.cpp), which are parsed (httpserver/client_rpc_endpoints.cpp) and handled
-- (httpserver/request_handler.cpp) on the node's database (storage/src/Database.cpp); a request of a
-- client goes on to the other nodes of the swarm, and their answers come back in one reply. Nodes test
-- whether others can be reached (httpserver/reachability_testing.cpp) and count what they do
-- (httpserver/stats.cpp). The master node (httpserver/master_node.cpp) takes the block updates, hands
-- the messages that a new member or a new swarm lacks over to it in batches
-- (httpserver/serialization.cpp), and asks another member of its swarm for a stored message after each
-- block. Requests come over https (httpserver/https_server.cpp) and from other nodes
-- (httpserver/bmq_server.cpp). They may come wrapped in layers of encryption
-- (crypto/src/channel_encryption.cpp, httpserver/onion_processing.cpp), of which each node on the way
-- removes one; contrib/onion-request.cpp is a client that builds them.
--
-- The files.
--   Prelude: library names, Boolean tests, lists, equality and association lists as maps.
--   Keys: the keys of nodes. Common: user_pubkey_t and message of common/include/beldex_common.h;
--     Common/Pubkeys: what printing and loading of keys keep.
--   RateLimiter: TokenBucket, fill_bucket, remove_token, should_rate_limit, should_rate_limit_client,
--     clean_buckets; its children: Invariant, Rate, Cleaning.
--   Swarm: SwarmInfo, derive_swarm_events, apply_ips, update_state, find_node; Swarm/Space and
--     Swarm/Closest: pubkey_to_swarm_space and get_swarm_by_pk; Swarm/Closest/Distance and Ring, Events,
--     Ips, Nodes: their properties.
--   Storage: the tables, the triggers and each operation of class Database; Invariant, Store, Delete,
--     Expiry: their properties.
--   Rpc and Rpc/Load: the requests, `load` and `to_bt` for bencoded dictionaries; Rpc/Load/Forward: the
--     round trip.
--   Handler: json objects, signatures, the message hash; Handler/Reply: swarm_response, reply_or_fail and
--     the callback of distribute_command; Handler/Client and Handler/Messages: process_client_req for
--     each request; Handler/StorageTest: the retries of a storage test;
--     Handler/Onion: process_onion_req; Once, Called, Allowed, AlwaysOk, Authorized, Retrieved: their
--     properties.
--   Stats and Reachability: the classes all_stats_t and reachability_testing; Window, Queue, Random:
--     their properties.
--   Serialization: serialize_messages and deserialize_messages in both formats; Batches, Size, Old, Ends:
--     their properties.
--   MasterNode: the state of class MasterNode, process_store, mnode_ready, derive_mnode_status and the
--     small methods; MasterNode/Relay: relay_messages, bootstrap_swarms, process_push_batch;
--     MasterNode/StorageTest: derive_tester_testee, process_storage_test_req, initiate_peer_test;
--     MasterNode/Peers: ping_peers and the reports; MasterNode/Parse and Update: parse_swarm_update and
--     on_swarm_update with count_missing_data. Their children hold the properties.
--   Utils and Utils/Strings: uniform_distribution_portable of utils/src/utils.cpp, and split, join, trim
--     of utils/src/string_utils.cpp. Onion: the parsing of a decrypted layer.
--   Keys/Coding: key_base and parse_pubkey. Channel: class ChannelEncryption; Channel/RoundTrip: its
--     properties. Signature: generate_signature and check_signature; Signature/Checked: their properties.
--   BmqServer: handle_mn_data, handle_ping; BmqServer/Onion: encode_onion_data, decode_onion_data and
--     handle_onion_request; BmqServer/StorageTest: handle_storage_test; BmqServer/Values: json_to_bt and
--     bt_to_json. Coded, Sent, Converted: their properties.
--   HttpsServer/Onion: process_onion_req_v2; HttpsServer/Calls: call_data, queue_response and
--     handle_request as steps; HttpsServer/Signed: validate_mnode_signature; HttpsServer/Address:
--     get_remote_address. Once, Valid, Zeros, Text: their properties.
--   OnionClient: onion_request of contrib/onion-request.cpp; OnionClient/Reply: wrap_proxy_response and how
--     its reply is read. OnionRoute: the servers of a path, each handling what the one before it relays;
--     OnionRoute/Layers, Steps, Delivered and Ends: the properties of the way.
--   Examples: applications of the theorems to concrete inputs.
--
-- How state and operations correspond. A class is a record, and a method a function from the record to
-- the record and the method's result. A mutex makes each method one step, so an interleaving is a list
-- of calls. Clock readings, random draws, the order of a shuffle, the state of the disk and the ids of
-- new rows are arguments. A time point is a natural number of its unit: nanoseconds in RateLimiter,
-- milliseconds in Storage, Handler and Reachability, minutes in Stats; a comparison of the source that
-- subtracts from a time is written as one that adds to the other side. Unsigned arithmetic wraps
-- around where the source's can. Log lines are left out. Loops over lists need no fuel. The loops of
-- the old format and of split have the length of their input as fuel, which is enough as each round
-- shortens it; the way of an onion request has 16 as fuel, one for each node, which is enough as each
-- relay counts the hops up to 15; the draws of uniform_distribution_portable and of the testee have
-- fuel as an argument, and `none`, or `spinning`, is that it ran out. What a node sends is appended to
-- its `outbox`, and what it reports to beldexd to `reports`.
--
-- Parameters. libbmq's hex, base64, base32z and bencoding (Hex, Base64, Codec, Base32z, OnionEnv),
-- std::mt19937_64, libsodium and OpenSSL (Primitives, Curve), nlohmann::json parsing and dumping
-- (Parsers, Document, EdgeJson, Dumps), printing of numbers, sorting (Env) and SQLite's row ids
-- (RowIds) are not code of the repository.
--
-- Not modelled: the json forms of requests, the dispatch by method name, the answers to relayed and
-- proxied requests, the HTTPS requests of networks before 12.1 but for the storage test's height and
-- hash, the requests to bootstrap nodes and for block hashes, the database's migration and its page counts, the set-up of the servers and the
-- writing of https responses, client requests over BMQ, logging, option parsing, vendored code.
-- Within what is modelled, exceptions of the database in the handlers of signed requests, a field of
-- another type in a block update, negative integers as times in a batch, and two threads in
-- queue_response at once are left out, as is the exact text of an exception. A read past the end of a
-- batch of the old format ends the model's run, as an outcome of its own.
pub mod Prelude
pub mod Keys
pub mod Common
pub mod RateLimiter
pub mod Swarm
pub mod Storage
pub mod Rpc
pub mod MasterNode
pub mod Handler
pub mod Stats
pub mod Onion
pub mod Channel
pub mod BmqServer
pub mod Signature
pub mod HttpsServer
pub mod OnionClient
pub mod OnionRoute
pub mod Utils
pub mod Serialization
pub mod Reachability
pub mod Examples
