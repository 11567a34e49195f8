-- ===== src/Lib.antt =====
-- ocm-service-common: the packages that the services of OpenShift Cluster Manager share.
--
-- The program is a Go library. A service puts its HTTP middlewares in front of its handlers and
-- calls its clients of other services. The parts that carry logic of their own are modelled; each
-- module names the Go file that it is about, with paths from the repository's root.
--
-- - TokenScope (pkg/middleware/token_validation.go, token_validation_options.go): State has the
--   struct and its guarded accessors, Validation has ValidateScopes, ValidateOfflineAccessByOrg,
--   ValidateAll and Handler, and Polling has NewTokenScopeValidationMiddleware, preSteps, check, Start
--   and StartPollingAMSForRestrictedOrgs. ScopeLaws, OfflineLaws, PollingLaws and LoopLaws are about
--   them. Requests read the state that polling writes: ValidateOfflineAccessByOrg is a function of
--   what its three reads returned, so that rounds may run between them.
-- - Claims: jwt.MapClaims, which TokenScope and StandardClaims read.
-- - StandardClaims (pkg/middleware/standard_claims.go): VerifyOCMClaims, the audience, the client id.
-- - TokenAuth (pkg/middleware/token.go): Authenticate and AuthenticateToken.
-- - Deprecation (pkg/middleware/deprecation.go): Match has matchesPattern and matchDeprecatedEndpoint,
--   and Handler has NewDeprecationMiddleware.
-- - RegionProxy (pkg/middleware/region_proxy.go, region_proxy_options.go): Proxy has Handler, checkCache,
--   updateCache and getRhRegionId, and Config has NewRegionProxy and its options.
-- - Segment (pkg/client/segment): Types, Context (SetSegmentContext, getUserId, setContext), Track
--   (Track and what it calls), Identify (TrackAccount). EventLaws is
--   about the fields of an event.
-- - Jira (pkg/client/jira): Fields (validation, addIssueFields), Client (CreateIssue, GetAllIssues,
--   GetAccountID, PostAttachment), Transport (transport.go, custom_field.go).
-- - TestSuite (pkg/test): Suite (Add, NewResult, the selection by label), Running (the goroutine of a
--   test case and the loop that receives the results), Setup (BuildTestSuite, helpers.go, ApiTest).
-- - Metrics (pkg/client/metrics_middleware.go): reducePath, the labels of a round trip and the
--   registration of the metrics.
-- - HttpLogging (pkg/logging): Transport (transport.go) and Wrapper (transport_wrapper.go), the round
--   trippers that log what they pass on.
-- - Logger (pkg/ocmlogger): Level (the levels, SetLogLevel, the caller), Extra (the key-value pairs),
--   Log (log, legacyLog, tryCaptureSentryEvent), Wrappers (the methods by level, contextual.go and the
--   two wrappers).
-- - Grafana (pkg/grafana): Types (grafana_types.go), Items (the items of createRegular and
--   createRoutes), Panels (these two and createCustom), Expressions (prepareExpressions,
--   updateGrafanaService), Replace (normalizePath), Sort, Generate (the loop of GenerateGrafana) and
--   Output (GenerateGrafana, printGrafana). The loop keeps its numbers in a Progress.
-- - Csv (pkg/csv, pkg/api): Parse has ParseCloudResource with strconv's conversions; Spelling says
--   which texts these accept.
-- - Notifications (pkg/client/notifications): NewClient and Send.
-- - Utils: Validation (utils/validation_helpers.go), rules and loops over slices, which Jira uses, and
--   Retry (utils/retry.go).
-- - Common: lists, texts with Go's strings functions, results, and runs that may panic.
--
-- Conventions. A Go map is an association list, a pointer an Option, and a nil error `none`; code that
-- may panic gives a `Run`. Handlers and clients return the list of what they do, in order. Third-party
-- code is a parameter: the SDK's answers, the LRU cache and the backoff library (interfaces with laws),
-- VerifyAudience, the analytics connection, the Jira library, and the levels of which zerolog makes an
-- event. So are url.Parse, net.ParseIP and strings.ToLower, since the properties hold whatever they
-- give.
--
-- Fuel. The search over pages (Jira.Client.issues_from) has as many steps as it is given; one step for
-- each page is enough. Every other loop is over a list.
--
-- Not modelled: log lines and counters outside of the two logging packages, JSON and YAML by
-- reflection, TLS, the locked writer of the logger, mocks, pipelines. A panel item of the generator
-- with more than 62 targets is not modelled. Locks are modelled where a property depends on them, in
-- TokenScope. In TestSuite each test case has a world of its own.
pub mod Claims
pub mod Common
pub mod Csv
pub mod Deprecation
pub mod Grafana
pub mod HttpLogging
pub mod Jira
pub mod Logger
pub mod Metrics
pub mod Notifications
pub mod RegionProxy
pub mod Segment
pub mod StandardClaims
pub mod TestSuite
pub mod TokenAuth
pub mod TokenScope
pub mod Utils
