-- ===== src/Lib.antt =====
-- ChiJie: a gateway that sends a caller's HTTP request out through a node of a pool.
--
-- The parts and their files. A pool (internal/pool) holds nodes from a configuration or from a
-- subscription, or is a template from which a node is made for each region. A request to /proxy
-- (internal/server) names a region and a class; the manager of the pools returns candidates in the
-- order of a strategy; the server tries them one after the other, and marks the nodes that fail. A
-- health checker probes the nodes and brings them up and down. The console's login
-- (internal/admin) is guarded by a limiter. Every request leaves a trace in a store
-- (internal/traffic), which the console shows grouped, counted and by the minute.
--
--   Prelude          lists, text, maps, signed integers, sorting and shuffling, over native numbers
--   Util             internal/util/strings.go
--   Pool.Types       the records of internal/pool/manager.go and internal/dialer/dialer.go
--   Pool.Names       strategies, region codes, group names, template types: manager.go
--   Pool.Region      the table of internal/pool/regions.go and detectRegionFromNodeName
--   Pool.Metadata    internal/pool/node_metadata.go, regionForNode
--   Pool.Candidates  entryChoices, tryOfflineEntryChoices, anyEntryChoices, templateChoices
--   Pool.Order       orderEgressChoices, prioritizePremiumChoices, premiumCandidateGroup
--   Pool.Select      egressCandidateGroup and the Select... entry points
--   Pool.Nodes       SetNodeEnabled, MarkNodeUnavailable
--   Pool.Entries     newNodeEntry, prepareSubscriptionEntries and what it calls: manager.go
--   Pool.Subscription  LoadFromFile, buildPool, RefreshSubscription: manager.go, status.go
--   Pool.Health      updateNodeHealth, shouldRunPool, options and targets: internal/pool/health.go
--   Proxy.Settings   ParseProxySettings, ValidateProxySettings and the server's accessors
--   Proxy.Egress     resolveEgress, selectAnyEgressCandidates
--   Proxy.Attempts   proxyAttemptRoutes
--   Proxy.Retry      doProxyWithRetry, with the marks of failed nodes
--   Proxy.Target     validateTargetURL
--   Proxy.Body       readProxyResponseBody
--   Proxy.Redirect   the tracker of internal/server/redirect.go
--   Guard            internal/netguard/netguard.go
--   Admin            internal/admin/login_limiter.go
--   Traffic.Types    the records of internal/traffic
--   Traffic.Wildcard wildcardMatch, matchHostPattern, matchPathPattern: traffic/grouping.go
--   Traffic.Rules    normalizeRule, validateRule and what they call: grouping.go, success_folding.go
--   Traffic.Config   NormalizeConfig and the Merge functions: grouping.go, success_folding.go
--   Traffic.Group    failureGroupKey, successFoldGroup, normalizeFailureURL
--   Traffic.Ids      formatID, parseTraceID: traffic/store.go
--   Traffic.Store    the store and its operations: traffic/store.go
--   Traffic.Metrics  metricsLocked, percentile95
--   Traffic.Display  displayTraces
--   Traffic.Series   buildSeries
--   Traffic.Snapshots  Snapshot, Metrics
--   Examples         runs on concrete data
-- The modules below each of these hold what is proved of it.
--
-- Correspondence. A Go function keeps its name in snake case; state that it changes is an argument
-- and a result. A string is the list of its code points, and its order that of the code points, as
-- in Go's UTF-8. A map is an association list in some iteration order. A nil dialer or choice is
-- `none`; the entries of a pool and their nodes are never nil, as buildPool makes them. A
-- mutex-guarded operation is one step. Signed integers are ℤ; latencies and times that the code
-- measures are natural numbers of nanoseconds, and counters do not overflow. The latency limit of
-- a request and the limit of a response's body, which may leave 64 bits, wrap around. Loops are
-- recursion on the list; the search for region codes runs on the length of the name, of which each
-- round uses up a character.
--
-- Fuel: the digits of an identifier have the 16 bytes of the source's buffer, which hold more than
-- the 13 digits of a 63-bit number; doubled dashes in a rule's name are replaced at most as often
-- as the name is long, and each round shortens it.
--
-- Parameters: net/url, with url.Parse and ChijieProxyURL; regexp and strconv.Quote; the calendar
-- of package time and time.ParseDuration; what a fetch of a subscription, its cache and the daily
-- files of traces yield; dialer.NewDialer; the orders in which a call of detectRegionFromNodeName
-- meets the maps of regions, drawn for every call anew; the tape of draws of math/rand;
-- net.ParseIP; the resolver's lookup; and one attempt of a request, doProxy, which is network
-- traffic: a function from its place in the sequence and its route to what it returns. Of a
-- request's context the model assumes, where a theorem says so, that once done it stays done.
--
-- Not modelled: HTTP, TLS, WebSocket and DNS traffic, the third-party dialers and fingerprints,
-- YAML and JSON files, the parsers and the cache of subscriptions, the writer of the daily files
-- of traces, quotients in floating point, the console. A selection reads the pools in several
-- locked sections, one for each list of candidates; the model reads one state of the pools in all
-- of them.
mod Prelude
pub mod Admin
pub mod Util
pub mod Pool
pub mod Proxy
pub mod Guard
pub mod Traffic
mod Examples
