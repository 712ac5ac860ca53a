-- ===== src/Lib.antt =====
-- proxyd is a proxy for Ethereum JSON-RPC: clients send requests, single or in batches, and the
-- proxy answers them from groups of backend nodes. For a group that is consensus aware, a poller
-- asks every backend in turn for its latest, safe and finalized blocks, bans those that misbehave,
-- and settles on a block on which all candidates agree. Requests are then rewritten so that block
-- tags mean that block, and refused where they ask for later ones. Sliding windows measure the
-- health of a backend; trackers hold the block agreed on, one of them shared through Redis; limiters
-- count requests, and a cache keeps responses that do not change.
--
-- Which file models which part; paths are from the repository's root.
--   Window.antt     pkg/avg-sliding-window/sliding.go: NewSlidingWindow, AddWithTime, Add, Incr,
--                   advance (with `evict` for the body of its loop), Avg, Sum, Count, Clear.
--   Backend.antt    backend.go: the Backend, its options, ErrorRate, IsHealthy, IsDegraded,
--                   ClearSlidingWindows.
--   Consensus.antt  consensus_poller.go: backendState, ConsensusPoller, its options, Ban, Unban,
--                   Reset, setBackendState, checkExpectedBlockTags; backend.go: BackendGroup,
--                   Primaries, Fallbacks. Its children Fetch (fetchBlock, getPeerCount, isInSync),
--                   Update (UpdateBackend), Candidates (FilterCandidates, getConsensusCandidates),
--                   Group (UpdateBackendGroupConsensus) and Rounds (the goroutines of
--                   PollerAsyncHandler.Init as a step relation, with the two writes of an update
--                   apart) are code; the others are proofs.
--   Rpc.antt        rpc.go: RPCReq, RPCRes, RPCErr, ValidateRPCReq, IsValidID, IsBatch.
--   Rewriter.antt   rewriter.go: rewriteTag, rewriteTagBlockNumberOrHash. Its children Params
--                   (rewriteParam), Ranges (rewriteRange, rewriteTagMap, blockNumber) and Overrides
--                   (RewriteTags, RewriteRequest, RewriteResponse, and from backend.go
--                   OverwriteConsensusResponses and OverrideResponses) are code.
--   Tracker.antt    consensus_tracker.go: the tracker in memory, the Redis tracker's stateHeartbeat
--                   and postPayload. Its child Commands (what a heartbeat writes) is code;
--                   Shared has what trackers on one Redis share between two heartbeats.
--   Limiter.antt    frontend_rate_limiter.go: the memory, Redis, no-op and fallback limiters.
--   Routing.antt    backend.go: Backend.Forward with its retries, ForwardRequestToBackendGroup,
--                   orderedBackendsForRequest, loadBalancedConsensusGroup. Its child Group has
--                   BackendGroup.Forward, isValidMulticallTx, ExecuteMulticall and
--                   ProcessMulticallResponses.
--   Cache.antt      cache.go and methods.go: the memory, fallback, Redis and compressing caches, the
--                   handlers of newRPCCache with their filters, GetRPC and PutRPC.
--   Exchange.antt   backend.go: doForward, and the check of ForwardRPC; its children Translation,
--                   Sorting (sortBatchRPCResponse) and Headers are code.
--   Server.antt     server.go: rateLimitSender, isAllowedChainId, getRPCMethodMappings, firstNonEmpty.
--                   Its children Access (populateContext, the limits of NewServer, isLimited), Batch
--                   and Minibatches (the two loops of handleBatchRPC) and Handle (HandleRPC,
--                   checkEthCallOverride, the writers of replies) are code. HandleRPC calls
--                   handleBatchRPC, and this a backend group's Forward, through `Service`.
--   Reader.antt     reader.go: the LimitedReader under io.ReadAll.
--   Websocket.antt  backend.go: clientPump, backendPump, prepareClientMsg, parseBackendMsg. Its children
--                   Dial (HandleWS of server.go, ProxyWS of a group and of a backend) and Session
--                   (Proxy, the two pumps at once) are code.
--   StringSet.antt  string_set.go.
--   Config.antt     config.go: the configuration, ReadFromEnvOrConfig, ValidateRoutingStrategy.
--   Start.antt      proxyd.go, redis.go: the first steps of Start. Its children Backends (with tls.go),
--                   Groups, Serving (NewServer of server.go), Pollers and Run (Start as a whole) are
--                   code. What NewServer returns is what the Server of Server/Handle.antt and
--                   the groups of Routing.antt are made of.
--   Json.antt, Base.antt: the values that encoding/json decodes, and shared helpers.
--   Tests.antt      concrete runs, and an instance of each theorem.
--
-- State is passed explicitly: an operation takes the record of its component and returns the new
-- one. The current time is an argument, in nanoseconds. Durations are natural numbers. Where a map
-- is keyed by pointers, a backend's `id` is its identity. Block numbers are uint64; `pred64` and
-- `to_int64` write their wrap-around out.
--
-- What the code calls and does not contain is a parameter: `Net` (a backend's answers to ForwardRPC
-- and hexutil's decoder), `Codec` (encoding/json, hexutil and go-ethereum's BlockNumberOrHash) with
-- the hypotheses `IsLawful`, `Redis` (what Redis and redsync answer during one heartbeat), and
-- `Shuffles` (math/rand and weightedshuffle), and for the cache `Lru`, `RedisStore`, `Snappy` and
-- `CacheCodec` (SHA-256 and encoding/json), and `TxCodec` (go-ethereum's transactions). Where several
-- trackers share one Redis, `Answers` is what Redis and redsync say of the lock they share. For
-- websockets `Wires` is what encoding/json and the two connections do, and `dial` whether an attempt
-- succeeds. In the routing `Attempts` is what Backend.doForward returns at each attempt, a panic included; `IsOrdered`
-- is that its responses come in the order of the requests. In the exchange `send` is what the backend
-- answers over HTTP and `Wire` what encoding/json decodes; `IsHonest` says that a backend answers each request once. In the server
-- `Service` and `Server` hold the decoders, the backend groups, the cache and the limiters, and
-- `IsExact` says what a call relies on of the groups and the cache, and `IsRouted`
-- that the groups are those of the routing, with honest backends; neither excludes that a call of a
-- group panics.
--
-- At the start `Env` is the environment: variables, files, regexp, and what go-redis accepts and
-- reaches.
-- An error of Start, an exit of the process and a panic are outcomes of their own.
--
-- Go ranges over a map in an order of its own: UpdateBackendGroupConsensus takes for each range the
-- order of that range. Its walk down has no bound in the source, so the model has fuel for the walks;
-- Consensus.Descent says how much is enough. A panic is a value: `crash`, `panics`, or `none`.
--
-- Not modelled: metrics and logs; how HTTP and websocket connections are opened, closed and timed
-- out; the decoding of TOML, main and the goroutines that listen; the waits between attempts and
-- between the turns of the poller and of a tracker; a heartbeat during which the lock changes hands;
-- a server whose size of minibatches is negative, which Start lets through; that ForwardRPC itself feeds the backend's
-- windows during a poll. The poller is modelled with the tracker in memory. Header names are compared as they are written, in canonical form.
pub mod Base
pub mod Window
pub mod Json
pub mod Backend
pub mod Consensus
pub mod Rpc
pub mod Rewriter
pub mod Tracker
pub mod Limiter
pub mod Routing
pub mod Cache
pub mod Server
pub mod Exchange
pub mod Reader
pub mod StringSet
pub mod Websocket
pub mod Config
pub mod Start
pub mod Tests
