-- ===== src/Lib.antt =====
-- A model of go-away, a reverse proxy that asks clients to pass challenges before they reach a
-- backend, and the theorems about it.
--
-- How a request goes through the program. ServeHTTP (lib/http.go) makes the RequestData of a request
-- (lib/challenge/data.go), reads the tokens of passed challenges from a sealed cookie, and evaluates
-- every registered challenge against them. handleRequest then goes through the rules (lib/rule.go):
-- a rule whose condition holds runs its action (lib/action), and its children where the action lets
-- it go on. An action answers the request, hands it to a backend through `done`, which cleans the
-- request first, or issues challenges by their runtimes (lib/challenge/cookie, refresh,
-- resource-load, preload-link, http, dnsbl, wasm), which answer with pages and redirects that lead
-- back with a token for the key of the client.
--
-- How a server starts. NewPolicy (lib/policy/policy.go) joins a policy with its snippets. NewState
-- (lib/state.go) chooses the key, prepares the networks, whose prefixes FetchPrefixes
-- (lib/policy/network.go) fetches, with a whois server among its sources (utils/radb.go), and which
-- are kept in a cache (utils/cache.go), compiles the conditions, creates the challenges, and builds
-- the rules. A network is loaded when it is first asked for; RegisterCondition (lib/conditions.go)
-- loads those that a condition names.
--
-- How the program runs. main (cmd/go-away/main.go) reads its options, loads a policy into a server in
-- a goroutine, and loads it again on every hangup; all loads share the seed, the templates and the
-- backends. The js runtime runs a WebAssembly module (lib/challenge/wasm/runner.go and utils.go).
--
-- State. World is what one request's handling reads and changes: the request, its RequestData, the
-- response's header, the cookies set, a list of events in order (parts of responses, calls of a
-- backend, metrics), and the clock, which does not move while a request is handled. State is the
-- server's. Handlers are functions from World to Handled, which says whether the rules go on.
--
-- Files, and the code they model:
--   Base       lists, byte texts, Boolean equality as an interface, association lists for maps
--   Text       the functions of the packages strings and strconv that are used
--   Time, Net, Url, Query, Mime   instants and rounding, addresses and NetworkPrefix of
--              lib/challenge/data.go, URLs and their values, the raw queries of utils/http.go, and
--              utils/inline/mime.go
--   Hex        utils/inline/hex.go
--   Redirect   EnsureNoOpenRedirect and SelectHTTPHandler of utils/http.go
--   Challenge  lib/challenge: Types (types.go), World, Registration and Create (register.go), Key
--              (key.go), Data, Token, State and Headers (data.go, and ErrorPage and ChallengePage of
--              lib/template.go), Query and Verify (helper.go)
--              Awaiter (awaiter.go) has steps of calls of Await and Solve that run side by side
--   Runtime    issuing and verifying of the runtimes named above; Preload.Answer has the handler of
--              preload-link/preload-link.go, Js the rest of wasm/registration.go with calls of Verify
--              that run side by side, and the decoding of wasm/interface/interface.go
--   Action     lib/action: Handle of every action, and Build for their construction
--   Rule       lib/rule.go: Evaluate, and Build for NewRuleState
--   Server     handleRequest of lib/http.go; Entry has CreateRequestData and ServeHTTP
--   DecayMap, Wasm, Fingerprint, Country, Tags   utils/decaymap.go, the proof of work in
--              embed/challenge/js-pow-sha256/runtime, utils/fingerprint.go, the function country of
--              lib/conditions.go, and the filter of fetchTags of lib/http.go
--              Wasm.Runner and Wasm.Call have lib/challenge/wasm/runner.go and utils.go, and
--              Wasm.Solution describes the proof of work by the bits of a hash; Tags.Fetch has the
--              rest of fetchTags, utils/tagfetcher.go and addCachedTags of lib/template.go
--   Policy     Networks, Snippets and Radb: lib/policy/network.go, lib/policy/policy.go and
--              utils/radb.go
--   Cache      utils/cache.go, as an interface with its promises and the two implementations
--   Proxy      Director, Bind and Transport: lib/settings/backend.go and lib/settings/bind.go, with
--              reverse proxies of utils/http.go and utils/unix.go
--   Startup    Building, Loading, Opening and Closing of lib/state.go, with setupRoutes of lib/http.go,
--              and Conditions of lib/conditions.go
--   Command    Options and Reload of cmd/go-away/main.go
--   Metrics    lib/metrics.go, and the methods of lib/interface.go that count
--   Embed      GetFallbackFS of embed/embed.go, utils/strings.go and lib/challenge/script.go
--   Examples   concrete requests and servers, and the theorems at them
--
-- Parameters. SHA-256 and MD5, the sealing of cookies, condition programs and their compilation,
-- `url.Parse`, the country database, DNS, the backend that the http runtime asks, the counters of
-- metrics, the decoding of YAML and JSON, regular expressions, the parsing of prefixes, rangers of
-- cidranger, and the answers of web and whois servers are arguments of the definitions that use them. A map is an association list, and
-- a loop over a map goes through it in the list's order. Calls that run side by side are lists of
-- steps, in any order; an access to a concurrent map, an atomic value or a shared variable is one step.
--
-- Bounds. Numbers are natural numbers; instants count nanoseconds from the year 1, and numeric dates
-- count seconds from 1970. Loops are recursion on lists. Only the decimal text of a number takes
-- fuel, 20 digits, which is enough for 64 bits. Probabilities are counted in units of 2 ^ -53.
--
-- Left out: the parsing of flags and the decoding of settings, certificates, the dispatch of
-- requests by ServeMux and the ticker of NewState, the execution of templates, logging, the
-- embedded files, and the raw pointers of a WebAssembly module: its memory, its instances and the
-- names that it refuses are arguments. The wait of the preload-link runtime for its Awaiter is an
-- argument of its IssueChallenge. The request for tags that ChallengePage makes to a backend is in
-- Tags.Fetch, and not a part of ChallengePage.
pub mod Base
pub mod Text
pub mod Metrics
pub mod Mime
pub mod Time
pub mod Net
pub mod Query
pub mod Url
pub mod Redirect
pub mod Challenge
pub mod Hex
pub mod Action
pub mod Rule
pub mod Server
pub mod DecayMap
pub mod Wasm
pub mod Fingerprint
pub mod Command
pub mod Country
pub mod Tags
pub mod Runtime
pub mod Embed
pub mod Examples
pub mod Policy
pub mod Cache
pub mod Startup
pub mod Proxy
