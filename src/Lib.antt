-- ===== src/Lib.antt =====
-- The address echo and VPN detection service, by the files of the repository's root. A request
-- names an address; the service looks up its autonomous system (asn.go), asks the lists of
-- published server addresses for a verdict (vpn.go, cidrindex.go), and adds what reverse DNS and
-- WHOIS say (signals.go). The lists are downloaded and derived anew every six hours (relay.go,
-- vpn.go). Look-ups go through bounded caches (cache.go) and past a rate limiter (ratelimit.go).
--
-- Which file models which part:
--   Net        netutil.go and the parts of net/netip that the program uses. An address is a number
--              with its family and zone: canonicalIP is canonical_ip, isRoutable is is_routable.
--   Index      cidrindex.go: lastAddr, sortMerge, buildCIDRIndex and Lookup are last_addr,
--              sort_merge, build_cidr_index and lookup_ip; the files in Index hold the proofs.
--   Limit      ratelimit.go: Allow is allow, with take_token for a bucket that is there;
--              evictLocked is evict_locked, limiterKey is limiter_key. Ideal is a limiter that never
--              drops a bucket, Refines and Answers compare the two, Callers counts for one key.
--   Cache      cache.go: Get is get; Do is cut at its locks into enter, finish, close and wake,
--              which Cache/Flight interleaves; evictLocked is evict, Len is len. Runs and Drains
--              follow the callers to their end; Alone is Do for a caller whom no other one meets,
--              and Single shows that the steps of such a caller do the same.
--   Asn        asn.go: parseOriginTXT, nibbleReverseV6, resolve, lookupOrg and Lookup are
--              parse_origin_txt, nibble_reverse_v6, resolve, lookup_org and lookup_asn. Kept puts
--              Lookup and the cache together.
--   Relay      relay.go: the record relayInfo, Label, addRelayAddr, and the loops of the feeds.
--   Signals    signals.go: checkRDNSHostname, queryWhois and Lookup are check_rdns_hostname,
--              query_whois and lookup_whois; Slots interleaves the callers that share the
--              semaphore, Kept puts Lookup and the cache together, and Matches says what the scan
--              of an answer finds.
--   Vpn        vpn.go: Check is check, one function for each of its branches; Augment is augment;
--              Networks has the table of autonomous systems.
--   Snapshot   vpn.go: refresh, buildSnapshot, get, fetchTor and fetchICloudPrivateRelay. Fetching
--              interleaves the goroutines that refresh launches, one for each feed.
--   View       main.go: inspect, targetIP, splitTopLevel, splitIPParts, classifyVerdict and the
--              labels, under the same names in small letters.
--   Ua         ua.go: Regexp is a backtracking matcher for package regexp, Patterns the expressions,
--              Detect the cascade: parseUA, detectBrowser, detectOS and brandToSlug are parse_ua,
--              detect_browser, detect_os and brand_to_slug. Ua itself is the set of user agents that
--              were logged lately; firstSeen is first_seen.
--   Hints      main.go: parseClientHints is parse_client_hints, with the choice of a brand in
--              pick_brand; Pretty is pretty.
--   Colo       colo.go: the table by regions, and coloLocation; cfColo and countryFlag of main.go.
--   Page       main.go: gather is gather, recordUA is record_ua; Handlers has the handlers, Texts the
--              plain views, Yaml writeYAML, Json the values that writeJSON encodes, by the tags of
--              the records' fields, Style pickStyle and envBool.
--   Service    main.go and vpn.go: the service as a sequence of events, requests and the turns of
--              runRefreshLoop, that change the server in the order in which they happen. Charges and
--              Quota follow the limiter through them.
--   Strings    the functions of package strings and strconv that these use, on bytes; Quote is
--              strconv.Quote, which Unquote and Reread read back.
--   Prelude    shared types, tests, lists, maps and integers. Tests holds runs.
--
-- The state of a part is a record that its operations take and give back. What the program reads
-- from outside is an argument: the clock (nanoseconds), the order in which Go ranges over a map (a
-- list that meets every key), the answers of DNS, WHOIS and HTTP, decoded JSON, and how texts are
-- parsed as addresses and prefixes, and which characters from 128 on package strconv takes for
-- printable. The search over the ranges runs on fuel, the length of the list, and every round
-- halves the interval; it returns nothing where the fuel is spent before it is over. A repetition
-- in a pattern runs on fuel, the bytes that are left, of which every turn takes one; printing a
-- number runs on fuel as well, one more than the number, which has no more digits than that. Tokens
-- are counted in billionths, exact for whole rates: the rounding of floating-point numbers is not
-- modelled. Letters, case and space are those of ASCII. A request is one event: it reads one
-- snapshot, and its call of the rate limiter and its entry in a set of user agents, each under a
-- lock in the program, come at once.
--
-- Not modelled: the text of JSON, which package encoding/json writes of a value; the templates,
-- which take the dataset as it is; in which order one request asks the name service, reverse DNS
-- and WHOIS, and whether a refused one asks them, since their answers are functions here; the
-- matching of paths, the flags, the request log, the transport of the feeds and the ticker of the
-- refresh, which only move data; the files under web and deploy.
pub mod Prelude
pub mod Strings
pub mod Net
pub mod Index
pub mod Limit
pub mod Cache
pub mod Asn
pub mod Relay
pub mod Signals
pub mod Vpn
pub mod Snapshot
pub mod View
pub mod Hints
pub mod Colo
pub mod Ua
pub mod Page
pub mod Service
pub mod Tests
