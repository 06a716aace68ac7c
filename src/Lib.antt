-- ===== src/Lib.antt =====
-- Verification library of guble, a message server: HTTP, websocket and push clients publish to
-- topic paths and subscribe to them, a router delivers, and a store keeps every message.
--
-- The parts and their files:
-- Protocol: the package protocol. Split has strings.SplitN, strings.Split and Path.Partition,
--   Decimal the numbers of strconv; Payload, Command, Notification and Message have the Bytes method
--   and the parser of each kind of text, Message also Decode. encoding/json is a parameter (Json).
-- Store: the package store and its filestore. Fetch is the request, Index the sorted list of
--   server/store/filestore/index_list.go, Codec the byte layouts, Partition the operations of
--   message_partition.go and cache.go, MessageId its generateNextMsgID, MessageStore
--   message_store.go. Partition/Fetching loads index files, calculates fetch lists and reads
--   messages, Partition/Saving is about a partition that is opened again.
-- Router: server/router. Topic is matchesTopic, Params the route parameters, Routes the table of
--   routes with subscribe, unsubscribe and handleMessage, Delivery the queue and the consumer of one
--   route, Provide the fetch of a route and its subscription, Entry is HandleMessage, Running the
--   loop of the router with its channels, Closing is closeRoutes.
-- KvStore: server/kvstore. KvStore is the store in memory, Interface the interface KVStore with its
--   contract, which Memory fills. Store/Dummy (server/store/dummystore), Connector, Push and Sms are
--   over any store that keeps the contract.
-- Connector: server/connector. Subscriber has the data of a subscriber and its key, Manager the
--   subscribers in memory and in the key-value store, Endpoint the HTTP handlers, Queue the workers
--   that send, Running is Run with Loop.
-- Cluster: server/cluster. Members sends to other nodes, Synchronizer has what other nodes store and
--   the loops that copy missing messages, Delegate dispatches what a node receives.
-- Websocket: server/websocket. Receiver is receiver.go, Commands is websocket_connector.go.
-- Push: server/fcm and server/apns, what their connectors do with a response, and the tries of
--   apns_sender.go.
-- Sms: server/sms/sms_gateway.go, the id of the last message and the loop that sends; Running has Run,
--   retry and Restart, Nexmo what nexmo_sms_sender.go makes of a response.
-- Prelude: bytes, maps as association lists, lists and tests over the native numbers.
--
-- How they interact: the router hands a message to the store, which generates its id and appends it
-- to a partition, the first part of its path; then it delivers the message to the routes whose paths
-- match its topic. A subscriber may first fetch from the partition, by a list of index entries that
-- comes from the index files and from the list in memory. A node of a cluster also sends the message to
-- the other members, whose routers get the same message, and a node that lacks messages asks the
-- member with the largest id for them. A websocket client is a set of receivers: each fetches what
-- is stored, subscribes when nothing is unread, and fetches again when the router closes its route. A
-- push connector keeps its subscribers in the key-value store and loads them after a restart.
--
-- State: a partition is a record with the open files, counters, the sorted list, the cache of full
-- files, and the contents of all files. Its operations are actions that return a result and the
-- state: what was written before a failure stays written. Which system calls fail is a parameter
-- (Faults), so that each theorem on a store is about all failures that it does not exclude. Each
-- operation holds the lock of the partition and is one step. The table of routes has Go's slices:
-- slices of one path share an array, which is changed in place. The delivery to a route is a relation
-- of small steps, one for each critical section of the goroutines that deliver, consume and close. The
-- saving loop of the dummy store and the calls of the subscriber manager are step relations too.
-- The selects of a receiver, the workers of a queue and the goroutines of a subscriber's run take lists
-- of events, so that any order of them can be stated.
--
-- Bounds and fuel: ids, offsets and sizes are words of 64 and 32 bits where the code cuts them off;
-- file positions are not cut off. A search in the list has fuel for its length;
-- printing a number has 20 rounds, enough for a uint64; splitting has as many cuts as bytes.
--
-- Parameters: encoding/json, SHA-1, the msgpack codec, the members of the cluster and whether a
-- message reaches one, the message store of a cluster node, and the answers of the push services.
--
-- Not modelled: logs and metrics, the HTTP upgrade and REST endpoint, the calls of push services, the
-- contexts of the SMS gateway, joining and leaving in memberlist, the SQL key-value stores, wiring and
-- configuration.
pub mod Prelude
pub mod Store
pub mod Router
pub mod Protocol
pub mod KvStore
pub mod Connector
pub mod Cluster
pub mod Websocket
pub mod Sms
pub mod Push
