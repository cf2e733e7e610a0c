-- ===== src/Lib.antt =====
-- Vidcast: live streaming with chat. The development covers the Go services, the users service,
-- which is written in Python, and the script with which CI deploys an image.
--
-- The parts and how they interact. MediaMTX receives the streams. It asks the streams service
-- whether a stream key may publish, tells it when a stream has ended, and runs the recorder on each
-- recorded segment. The recorder puts the segment into an object storage, from which the streams
-- service lists it. The chat service carries the messages of a room between its pods over Redis.
-- The users service keeps the accounts, gives out tokens and records who follows whom.
--
-- Files, by the source that they are about:
--   Streams/Store         services/streams/store.go. The record `Store` has the two maps; each
--                         method is one function of the store (CreateKey is `create_key`), since it
--                         holds the mutex throughout. Index has the invariant, Runs sequences of
--                         calls, Keys and Listing what the methods promise, Registry the refinement
--                         of a partial function from slugs to entries.
--   Streams/Auth, Streams/HttpJson, Streams/StreamKeys, Streams/Channels
--                         auth.go, httpjson.go, streamkey_handler.go, channels_handler.go and
--                         health.go of services/streams.
--   Streams/MediaMtx      mediamtx_handler.go. A handler is given in two phases, since other
--                         requests can come between its calls of the store; `auth` and `unpublish`
--                         are the phases with nothing in between.
--   Streams/S3Client, Streams/Recordings
--                         s3client.go and recordings_handler.go.
--   Streams/Server        main.go and the routes: `serve` answers one request.
--   Recorder              services/vod-recorder: env.go, uploader.go and main.go, whose `main` is one
--                         run on local files and a storage.
--   Vod                   the recorder and the listing together.
--   Chat/Hub, Chat/Pod    services/chat/hub.go and handler.go. Rooms stand in a heap, because a
--                         subscription keeps its room after the map has lost it. `Step` has every
--                         step of a connection, a subscription and a writer; `Reach` are the states
--                         of any interleaving. Starting a connection is one step, and the call of
--                         `subscribe` for a new room a later one, which allows more interleavings
--                         than the code has.
--   Chat/Cluster          several pods and the messages that have been published: the steps of the
--                         pods, and turns of the read loops of handler.go.
--   Chat/Reader           the read loop and the ping loop of handler.go.
--   Chat/Broker           broker.go: shards and channels.
--   Chat/Config, Chat/Health
--                         main.go and health.go of services/chat.
--   Echo                  services/echo.
--   Users/RateLimit, Users/ClientIp
--                         services/users/app/rate_limit.py: the limiter with its buckets, and the
--                         address that a request is counted under. Ideal is a limiter that never
--                         evicts, Simulation compares the two, Lockout and Release are about a
--                         refusal, Budget about the attempts that are let through.
--   Users/Schemas, Users/Settings
--                         schemas.py and config.py: validation of registrations and of settings.
--   Users/Db              models.py: tables as lists of rows, statements that keep the constraints.
--                         Invariant and History are about sequences of statements.
--   Users/Security, Users/Auth
--                         security.py, deps.py and routers/auth.py: registration, login, tokens.
--                         Attempts are sequences of logins.
--   Users/Follows         routers/users.py: `follow_user` and `unfollow_user` look the user up in one
--                         state of the database and write to another; Order, Slices and Pages are
--                         about the lists.
--   Users/Service         main.py and the routes: `serve` answers one request.
--   Users/Migrations      migrations.py: the wait for the advisory lock and the cleanup.
--   Ci/BumpTag            .github/scripts/bump_image_tag.py: the loop on the lines, and `main` on files
--                         by their path, with the ends of lines as Python reads them. A line keeps
--                         its end. Block says what it is for a manifest to have one tag, Sound and
--                         Complete that the loop bumps just these manifests, Run is about `main`,
--                         Trim and TagLine about the text of a line, Again about two bumps.
--   Go                    what the sources use of Go's standard library, on strings of bytes.
--   Base                  shared names, lists, maps and the equality of keys.
--   Tests                 runs at concrete inputs.
--
-- Bounds. A loop is a recursion on the list that it goes through, and a loop that waits for events
-- is given on the list of the events or as steps. One loop has fuel, the wait for the advisory lock:
-- its 151 polls are one at the start and one after each of the 150 sleeps that the timeout has room
-- for. Numbers are natural; the hash of a room keeps its 32 bits (`% 2 ^ 32`), and a duration is an
-- integer of nanoseconds. The users service's times, floats in the source, are natural numbers of
-- ticks, and its strings lists of code points.
--
-- Parameters: the random source, the JSON decoder and encoder, the AWS SDK, the Redis client, the
-- parsers of durations and floats, the answers of the operating system. No law is assumed of any of
-- them. The store takes its hash as an argument, and Go/Sha256 is the one that the source uses. For
-- the users service: the libraries for passwords and tokens, of which `IsSecurity` says that a
-- password matches its own hash and that a token is read back until it expires; the texts of the
-- database driver's errors, of which `IsDriver` says that they name what was violated; `str.lower`,
-- of which `LowersAscii` says what it does to ASCII; the e-mail library and the rendering of a URL.
--
-- Not modelled: charts, infrastructure and the rest of CI, the listeners and logs of the services,
-- the bytes of JSON texts, the configuration of SQLAlchemy and Alembic, and exceptions that the
-- libraries for passwords raise on a password with a NUL. Of two requests to the users service at
-- once, the interleavings that are modelled are those of a follow with any change of the tables, and
-- those of the limiters' calls. A limiter's sample size is positive (`Limits`), and the encoding
-- of the file that the script rewrites is not looked at: a file is the text that it decodes to, or
-- none.
pub mod Base
pub mod Go
pub mod Streams
pub mod Recorder
pub mod Vod
pub mod Chat
pub mod Echo
pub mod Users
pub mod Ci
mod Tests
