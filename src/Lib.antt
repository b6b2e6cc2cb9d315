-- ===== src/Lib.antt =====
-- core-status: a service that keeps encrypted status updates of users in streams, grants other users access to ranges
-- of them, re-encrypts them for these users, and announces changes over PubNub and RabbitMQ; and its worker, which
-- sends each new status on to the holders of grants.
--
-- The parts, by the file that models them (paths are those of the repository):
--   Base       names, tests and list lemmas that the other files share
--   Data       rows, bodies, errors, JSON and messages (src/products/entity, dto, exception, pubnub/notification.ts)
--   Effects    the tables, Redis and the outside calls so far (`World`), the libraries (`Env`), calls that may throw (`M`)
--   Access     scopes of tokens (src/products/commons/scope.decorator.ts, util/util.ts)
--   Cache      the cache in Redis (src/products/services/cache.service.ts)
--   Pubnub     the PubNub client (src/products/pubnub/pubnub.ts); Waiting is the wait for a subscriber
--   Publishers the publishers of messages (src/products/rabbit)
--   Subscribers what an insert sets off (src/products/services/subscribers.service.ts, src/products/subscribers)
--   Streams    streams and their types (src/products/services/stream.service.ts, stream_type.service.ts)
--   Grants     Range is `checkContinuousRange`, Service the other operations (src/products/services/grant.service.ts), and
--              Service.Race two requests whose checks and writes cross
--   Pre        payloads under re-encryption (src/products/util/pre.ts); Ends is what their owner and their reader do
--   Status     Read, Write and Remove are the operations of src/products/services/status.service.ts; Read.Turns is the
--              calls of several requests as they interleave; Lifecycle is the
--              state that they make of an update, and the runs of these operations
--   Worker     the message handlers of worker/src; Pipeline joins them to Grants and Status by the cache, Through from
--              end to end; Turns is the calls for several grants as they interleave
--   Uploads    Service, Request and Stream are src/products/services/upload.service.ts with its repository and
--              src/products/util/interactive-stream.ts; Handlers is src/products/controllers/uploads.controller.ts with
--              src/products/util/upload-exception-filter.ts; Keys is the key of a new file
--   Clients    the clients of other HTTP services (src/products/services/api.ts, message.ts, block.ts, keystore.ts) and
--              the handlers that call them; Interleaving is one client under several callers
--              (Bodies and Messages are what is posted, of src/products/dto/channel.model.ts and util/util.ts)
--   Products   products (src/products/services/products.service.ts, its repository and its handlers)
--   Resources  what is inherited of src/products/services/base.service.ts, the handlers of containers, and the wrapping of
--              answers (src/products/commons/transformer); Update is what has no caller
--   Query      query options and the calls of a query builder (src/products/repositories/query.options.ts,
--              src/products/services/base.service.ts)
--   Controllers the handlers of src/products/controllers/status.controller.ts
--   Rabbit     the handlers of queues and the search for them (src/rabbit), with Nest's calls as a parameter, `Framework`
--   Startup    what the service is configured with and starts with (src/main.ts, src/products/config,
--              src/products/model/config.ts)
--   Examples   a small system, and the theorems at work on it
-- A function of the model has the name of the source's function in snake case. A handler checks scopes and calls a
-- service; a service reads and changes the tables through a `Table`, the cache through Redis, and calls outside
-- services, each of which leaves an `Effect` in the history where it goes through.
--
-- TypeORM, Redis, PubNub, RabbitMQ, S3, busboy, axios, lodash, the cryptography library, JSON and dates are not part of the
-- repository: they are fields of `Env`, and what a theorem relies on of them is a hypothesis (`IsTable`, `IsRedis`,
-- `IsSortBy`, `ServesRanges`, `FindsUpdates`, `StoresGrant`, `StoresStatus`, `Scans`,
-- `AllAnswer`, `StoresAnswer`, `FindsAll`, `StoresColumns`, `ReadsBack`, `Carries`, `ReEncryptsFor`) that Examples fills for tables in memory;
-- lemmas that are no results rely on `IsBuilder` and `RollsBack` too.
-- Instants are natural numbers of milliseconds. `Promise.all` and `Promise.allSettled` run one call after the other, but in
-- Worker.Turns and Status.Read.Turns.
-- The subscriber of a saved grant runs within TypeORM's `save`: what is left of the insert where it throws is `roll_back`
-- of `Env`, which is the table before it where TypeORM rolls back (`RollsBack`). The insert of a status has no such rule.
-- Loops are structural, but for the reads of a download, which run on fuel: for an object of `max_len` bytes,
-- `max_len + 2` is enough, since each read moves the position forward, and so is one more than the chunks that it fills
-- and one for the end. The wait for a subscriber polls for ever where the subscriber never comes; its fuel is the number
-- of polls that are looked at, and one more than the index of the poll that ends it is enough.
--
-- A promise that is never settled is a value (`pending`), and so is an exception that nothing catches and that ends the
-- process (`crashed`): a request that waits for either has no answer.
--
-- Not modelled: log lines, the signature of tokens, the types of the channel API's answers, which stay JSON, and the wiring of modules.
-- Of a cache key, `remove` is left out: it calls a method that is not one of the Redis client, and has no caller.
-- The decorators that validate a new channel are modelled; the bodies of the other handlers are taken as valid.
pub mod Base
pub mod Data
pub mod Effects
pub mod Grants
pub mod Cache
pub mod Access
pub mod Pubnub
pub mod Subscribers
pub mod Clients
pub mod Streams
pub mod Pre
pub mod Status
pub mod Worker
pub mod Uploads
pub mod Query
pub mod Rabbit
pub mod Startup
pub mod Controllers
pub mod Resources
pub mod Products
pub mod Publishers
pub mod Examples
