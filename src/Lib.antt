-- ===== src/Lib.antt =====
-- redgeo: a Redis-compatible server whose replicas share their keys by a CRDT datastore. This
-- library models the parts that decide what a replica stores and how the replicas compact their
-- history together.
--
-- hlc/hlc.go stamps every write. crdtstore/ keeps each key as slots, one for each replica, in
-- envelopes that carry a stamp: a read chooses the winner of the slots. MULTI/EXEC reads through an
-- overlay, HSCAN, SSCAN and ZSCAN page through a collection, and a watermark tells what may be
-- purged. A set is the keys under its prefix, a list the keys that encode its positions, and the
-- metadata of a key say of what type it is. engine/ keeps the datastores of a partition, a new
-- generation for each compaction, and a fence that holds writes and reads back meanwhile. rotation/ runs a compaction over the cluster: a
-- coordinator freezes all members, waits until all hold the same blocks, seeds the next generation,
-- has all members switch, and commits. parser/ and command/ turn a request's arguments into a
-- command.
--
--   Base            the native numbers, int64, byte strings, orders, maps
--   Hlc             hlc/hlc.go: Stamp, Clock, Now, Observe, Encode, Decode
--   Slot            crdtstore/slot.go: encodeSlot, decodeSlot, winner, liveValue
--   Meta            crdtstore/meta.go: encodeMeta, decodeMeta, the flavors
--   Watermark       crdtstore/watermark.go: Observe, SafeCut, Confirmed
--   Bitops          crdtstore/bitops.go: bitRange, bitCountRange, bitPosRange, bitop
--   Txn             crdtstore/txn.go: BeginTxn, and put, del, get, has, query through the overlay
--   Scan            crdtstore/scan.go: the resume table and scanPage
--   Cms             crdtstore/cms.go: the parameters of a sketch and an item's cells
--   Keys            crdtstore/keys.go: the datastore keys of everything, with child modules on paths
--   Exec            results and errors of core/core.go, and the monad of the operations
--   Keyspace        what the repositories ask of a node: an interface and its laws
--     Node, Lawful  crdtstore/store.go, meta.go, probe.go over a datastore, and that they have the laws
--   SetRepo         crdtstore/rset.go: setRepo
--   ListRepo        crdtstore/rlist.go: listRepo; Position: encodePos and decodePos
--   Counters        crdtstore/counter.go: components, sums and increments
--   StrRepo         crdtstore/rstring.go: strRepo; Stored: the registers of a node
--   KeyRepo         crdtstore/rkey.go: keyRepo but Scan; Listing: what listKeys lists
--   Locks           crdtstore/locks.go: the shards, and the two locks of setRepo.Move
--   Commands        command/set, command/list and command/string: the parsers, Run, and the replies
--                   of redisapi/redis.go; EndToEnd and Counting compose a command, its repository
--                   and its replies
--   Engine.Gate     engine/gate.go: the fence, wrapGen, unwrapGen, the pump, the views
--   Engine.Partition  engine/rotation.go: Stage, Activate, WaitSeed, Commit, Rollback, restoreGen,
--                   RotatePartition
--   Rotation        rotation/rotation.go: msg and pstate; a Site is one partition on one node
--     Participant, Handle  onPrepare, onSwitch, finish, watchdog, onStatus, onOutcome, handle
--     Coordinator, Collect  Compact and collect
--     Membership    learn, Members, Forget, loadMembers
--   Parser          parser/parsers.go and parser/pipeline.go
--   SetCommand      command/string/set.go: ParseSet
--   Tests           concrete runs
--
-- A method that locks is one step. A wait is split: what is done before it, what it looks at, and
-- what follows. A Go map is an association list. Times, replies, and the outcomes of calls into the
-- datastores (go-ds-crdt, Badger) are arguments, and so a theorem speaks of all of them; a
-- generation's datastore is its live entries. The datastore under a transaction is the parameter
-- Backend, whose batch is taken to apply its writes in order (AppliesInOrder). Saving the
-- list of members may fail, and its error is ignored, as the code does.
--
-- Loops over lists recurse on the list. The loops of Compact recurse on the passes that they are
-- given, and have no result if these do not suffice; passes after the deadlines do. The pipeline's
-- loop takes the number of parsers as its bound, and the search for a bit the number of bits left;
-- neither runs out.
--
-- A repository takes the interface Keyspace, and its theorems the laws Works, which Keyspace.Lawful
-- proves of a node over a datastore that finds what was put and does not fail (LawfulBackend). The
-- locks that an operation holds make it one step, in which the wall clock stands still. setRepo.Move,
-- which may wait for itself, takes the locks that are held, and has no result where it waits for
-- ever; so has handle where a Compact holds the partition. ds.NewKey is a parameter that keeps a path
-- without empty segments and cuts a last slash off (Cleans). A float64 is a parameter (Floats), whose
-- bits and order IsFloat64 states. An int is printed with fuel for its twenty digits.
--
-- Not modelled: the repositories of hashes, sorted sets, streams and JSON, and their liveness, which
-- is a parameter of a node; the sketches but for the parameters of one, and so the HyperLogLogs and
-- bitmaps that strings read and replace, which are the parameter Sketches; crdtstore/keyops.go, whose
-- deleteKey and copyKey are the parameter KeyOps; the commands but for those
-- of sets, lists, strings and counters; scripting, JSON documents, the network and
-- the process. strings.ToLower and EqualFold are those of ASCII text; floats are a parameter.
pub mod Base
pub mod Keys
pub mod Exec
pub mod Keyspace
pub mod SetRepo
pub mod ListRepo
pub mod Locks
pub mod Commands
pub mod Hlc
pub mod Slot
pub mod Meta
pub mod Parser
pub mod SetCommand
pub mod Engine
pub mod Rotation
pub mod Watermark
pub mod Bitops
pub mod Txn
pub mod Scan
pub mod Cms
pub mod Counters
pub mod StrRepo
pub mod KeyRepo
pub mod Tests
