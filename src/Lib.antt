-- ===== src/Lib.antt =====
-- Hokora is a messaging daemon for Reticulum networks. A node keeps channels, pushes messages to the
-- clients that are connected to it, and federates with other nodes: a mirror holds a link to a
-- remote channel and copies its history, and the traffic of a federation link is sealed under keys
-- that rotate every epoch. This library models the parts of the daemon that keep state of their
-- own and decide what is let through, sent, stored or refused.
--
-- The parts and their files (the modules of a part stand in the folder of its name):
--   * Base, Result, Bytes, Dict: numbers, lists, byte strings with the fields of `struct`, Python dicts
--     in insertion order, and results of code that raises.
--   * Federation/EpochWire: src/hokora/federation/epoch_wire.py, the codec of the epoch frames.
--     `encode_*` and `decode_*` keep their names; an exception is an `err`.
--   * Federation/EpochCrypto: src/hokora/federation/epoch_crypto.py, the key schedule. X25519, HKDF,
--     HMAC and the AEAD are the fields of `Primitives`; what a theorem relies on of them is a
--     hypothesis (`IsAuthentic`, `HasProtocolSizes`, `Peers`).
--   * Federation/EpochManager: src/hokora/federation/epoch_manager.py. The object is the record
--     `EpochManager`; a method returns it beside its result, also where it raises. `Sealing` encrypts
--     and decrypts, `Handshake` runs a rotation between two managers, `Delivery` sends messages
--     between them, `Restart` stores and loads the row of src/hokora/db/models.py.
--   * Federation/Mirror: src/hokora/federation/mirror.py. `ChannelMirror` is the state machine, one
--     function per transition; `Responses` is `handle_response`, which uses the epoch manager.
--   * Federation/Auth, Federation/PushMessages, Federation/MirrorIngestor, Federation/Pusher: the sender
--     binding of src/hokora/federation/auth.py, `handle_push_messages` of
--     src/hokora/protocol/handlers/federation.py, src/hokora/federation/mirror_ingestor.py and pusher.py.
--     `PushState` is what a push reads and writes; the rows that go to the live subscriptions are
--     listed in it. Federation/Arrivals joins them with the ingestion of src/hokora/core/message.py.
--   * Protocol/ZombieLinkBuffer and Protocol/Live: src/hokora/protocol/zombie_link_buffer.py and
--     src/hokora/protocol/live.py. Pushes (`Pushing`) go to links, batches (`Batches`) or the
--     deferred queue and are recorded in the buffer, which is drained on a death. What is sent is a
--     list of effects.
--   * Protocol/Session: src/hokora/protocol/session.py and the session and deferred-item
--     repositories of src/hokora/db/queries.py (`Store`), with `defer_sync_item` of
--     src/hokora/protocol/sync_utils.py (`Deferral`). Tables are lists of rows.
--   * Protocol/Wire: src/hokora/protocol/wire.py, the two-byte length header and the checks of requests
--     and responses, over msgpack as a parameter.
--   * Text: a str as the list of its code points, with its UTF-8 encoding. Db: the rows of
--     src/hokora/db/models.py and the repositories of src/hokora/db/queries.py (`Identities`, `Roles`, `Messages`).
--   * Security/Permissions, Security/Roles, Security/Ban: src/hokora/security/permissions.py, roles.py
--     and ban.py. `Meaning` says when the five levels give a permission. A mask is a number, and
--     `Base/Bits` has its bitwise operators.
--   * Security/Sealed: src/hokora/security/sealed.py, the keys of sealed channels, their rotation and
--     (`Loading`) their storage. Security/SealedInvariant: src/hokora/security/sealed_invariant.py, the
--     gates that keep texts out of the tables.
--   * Protocol/ChannelRead: `check_channel_read` of src/hokora/protocol/sync_utils.py.
--   * Core/Sequencer and Core/Processor: src/hokora/core/sequencer.py and src/hokora/core/message.py.
--     The processor, the sequencer, the rate limiter and the tables are one record `State`, which
--     every handler returns beside its result, also where it raises. It uses the resolver, the gate
--     of the bans, the rate limiter and the sealed manager.
--   * Core/MirrorManager: the cursors of src/hokora/core/mirror_manager.py in the table of peers.
--   * Samples: the rows that the tests and witnesses of several parts use.
--   * Security/Verification: src/hokora/security/verification.py, nonces, signatures, clock drift.
--   * Security/Invites: src/hokora/security/invites.py, invites and the limits on their redemption.
--   * Security/RateLimit: src/hokora/security/ratelimit.py, token buckets and slowmode.
--
-- Choices that hold everywhere: identities, channels, links and event types are numbers that are
-- only compared. Times are numbers of ticks and `now` is what the clock returns in a call. Random
-- bytes are arguments of the call that draws them. No loop of the modelled code needs fuel: each
-- runs over a list. Python's locks are left out where a method holds its lock throughout, so that
-- its calls are steps; interleavings are sequences of such steps (`Traffic`, `Served`, `Run`,
-- `Life`, `Calls`, `Arrivals`). Machine-width fields are those of `struct`: an encoder fails on a number that
-- does not fit.
--
-- Not modelled: the bodies of msgpack encodings, which are parameters; timers of the event loop;
-- logging and metrics; the command line, the terminal client, the database engine, media
-- transfer, the handshake orchestration, the channel manager and the distribution of
-- sealed keys. A table is a list of rows in the order of insertion; foreign keys are not checked. A
-- transaction that the caller rolls back is not modelled: where a handler raises, a theorem
-- speaks of the tables as they are at that moment.
pub mod Base
pub mod Bytes
pub mod Core
pub mod Db
pub mod Dict
pub mod Federation
pub mod Protocol
pub mod Result
pub mod Samples
pub mod Security
pub mod Text
