-- ===== src/Lib.antt =====
-- Verification of statefuse, a store of claims that replicas fork and merge.
--
-- The program keeps a log of immutable operations. Each operation adds a source, a piece of evidence,
-- a claim, a retraction, a decision, a derivation, a resolution of a conflict or an event of a
-- conflict's life. Replicas append operations to their own logs, hand each other deltas and merge.
-- What is modelled, by file:
--
--   Base, Base/*          numbers, lists, dictionaries in insertion order, Python's `sorted`
--   Json, Json/Equality   JSON values, and Python's `==` on them (True == 1 == 1.0)
--   Result, Host          exceptions as values; what is taken from the standard library
--   Model, Model/*        statefuse/model.py: the records, their constructors and their payloads
--   Ops, Ops/*            statefuse/ops.py: the operations and their payloads
--   OpLog, OpLog/*        statefuse/oplog.py: the log, a dictionary under the operation's identifier
--   Merge, Merge/*        statefuse/merge.py: union, checked union, authenticated union
--   Auth, Auth/*          statefuse/auth.py: signatures of claims and retractions
--   Replica, Replica/*    statefuse/replica.py: what was received of a peer's log, deltas, manifests
--   Store, Store/*        statefuse/store.py: deltas, the store in memory, the JSON-lines store
--   Conflict, Conflict/*  statefuse/conflict.py: predicates, overlap, identities, the scan,
--                         detectors
--   Materialize, Materialize/*
--                         statefuse/materialize.py: the facts of a log, active claims, histories, the
--                         fold of the lifecycle, the state, queries, the incremental loop
--   Tests, Tests/*        the theorems at concrete inputs
--
-- A class is a record with the source's fields; `__post_init__` is `post_init`, a function into Result
-- that returns the record or raises. A method that changes an object returns the new object. A frozen
-- operation is the record Op with what its subclass adds as a value of Body. Python's floats are read
-- as whole millionths, which is enough for the confidences and weights that the code compares; no
-- theorem rests on their rounding. A mapping is a list of pairs in the order of insertion, so that
-- `dict.update`, `dict.pop` and iteration behave as in Python. Every loop of the source runs over a list
-- and is structural recursion, so that no fuel is needed.
--
-- The clock format, the seconds of an instant as a float, SHA-256 of the canonical JSON text, HMAC,
-- `str` and `float` are fields of Host. A theorem that needs more of them says so: that `str` leaves a
-- text as it is and `float` a float, or that digests are ASCII. `hmac.compare_digest` is written out:
-- it raises for texts that are not ASCII, and so do the checks of signatures and the merge that calls
-- them. The functions of a predicate's rule are parameters that neither raise nor keep state, as conflict.py
-- asks of them.
--
-- Not modelled: locks (a method is one step), byte offsets and side files of the JSON-lines store,
-- the store in SQLite, the incremental index of conflicts (`materialize` raises where reading the
-- intervals for it raises, but keeps no index) and with it what an incremental update does
-- after its loop, resolvers, views, compaction and the integrations.
pub mod Base
pub mod Json
pub mod Materialize
pub mod Result
pub mod Host
pub mod Model
pub mod Ops
pub mod OpLog
pub mod Replica
pub mod Auth
pub mod Merge
pub mod Store
pub mod Tests
pub mod Conflict
