-- ===== src/Lib.antt =====
-- DNSliar: a DNS server that forwards queries and lies about the names and addresses that a
-- blacklist in Redis names.
--
-- The program has two parts: the daemon (dnsblrsd/) and a command line tool that edits what is in
-- Redis (redis-ctl/). This library models both.
--
--   Base, Base/Tests, Base/Lists, Base/Text, Base/Words
--     shared names; lists measured by native numbers; `str` functions of Rust that are called
--   Net, Redis, Dns, Env
--     what is outside of the program: the addresses of std::net, the Redis server, the crates
--     hickory-proto, hickory-resolver and hickory-server, the clock. Functions of theirs are fields
--     of the records `IpText`, `Redis`, `Hickory` and `Env`, arguments of all that uses them. Only the
--     accessors of hickory's enums (`record_type`, `ip_addr`, `into_cname`) are written out. A call
--     of Redis, a lookup or the sending of a message works on the outside world and may return any
--     value or error. The laws that theorems rely on are `IpTextLaws` (no text is both an IPv4 and an
--     IPv6 address) and `HickoryLaws` (records of a lookup carry the data of their type);
--     for the tool also `ReadsBack` (an address that was read is written so that it is read again),
--     `Keywords` ("A" and "AAAA" are no addresses) and `TypeTexts` (how hickory writes the types A and AAAA).
--   Exec, Exec/Safe
--     `DnsBlrsResult` with panics, over a state: a call returns a value, an error, or panics, and
--     what it wrote stays. `Safe` calls do not panic, nor return the error of the start.
--   Errors (dnsblrsd/src/errors.rs), RedisMod (dnsblrsd/src/redis_mod.rs)
--   Resolver (dnsblrsd/src/resolver.rs)
--     `resolve`, `sort_records`, in Resolver/Build `build`; Resolver/Partition, Total, Answers and
--     Negative hold the theorems
--   Filtering (dnsblrsd/src/filtering.rs)
--     `filter`, `filter_resolution`; Filtering/Order and Candidates on the suffixes that are tried,
--     Rules, Search and Decision on the rules, Blocking on the addresses, Resolution and Total on panics
--   Handler (dnsblrsd/src/handler.rs)
--     `handle_request`, `try_handle_request`; Handler/Errors, Handler/Total, and Handler/Lies on
--     whole requests for names with a rule
--   Config (dnsblrsd/src/config.rs)
--     the sinks, forwarders and binds, `setup_filtering`, `setup_binds`; Config/Sinks, Lists,
--     Forwarders and Binds on these, and Config/Confile for `read_confile`
--   Signals (dnsblrsd/src/signals.rs, and the first configuration of dnsblrsd/src/main.rs)
--     the signals on the shared configuration; Signals/Toggle, and Signals/Reach, where signals,
--     requests and changes from outside take turns
--   Start (dnsblrsd/src/main.rs)
--     `main` with its exit codes; Start/Total
--   RedisCtl (redis-ctl/src/modules/get_datetime.rs), RedisCtl/NoPanic
--     what the tool is given, `Connection`: its connection to Redis, the clock, the output. A function
--     of the tool returns, stops on an error of Redis, or panics (`Ended`); `NoPanic` ones do not
--   RedisCtl/Rules (redis-ctl/src/modules/rules.rs)
--     the rules that the tool writes; RedisCtl/Rules/Add and Answered on the fields of a rule, Pairs on
--     the pairs of arguments that are accepted, Switch on `enable` and `disable`, Quiet, Applied and Disabled on the daemon after `add`
--     and `disable`
--   RedisCtl/Conf (redis-ctl/src/modules/conf.rs)
--     the sets that configure the daemon; RedisCtl/Conf/Sets on the Redis that both share, Sinks and
--     Blocked on the daemon after `set_sinks` and `add_blocked_ips`
--   RedisCtl/Feed (redis-ctl/src/modules/feed.rs)
--     Feed/Auto is `auto`, Feed/Single is `add_to_filter`; Lines on the lines of a list, Scan and Clear
--     on the loop over SCAN, Spares and Kept on the rules that are there, Named, Brings and Adds on those that
--     are new, Fields on the fields of a line
--   RedisCtl/Stats (redis-ctl/src/modules/stats.rs), RedisCtl/Stats/Keys
--   RedisCtl/Main (redis-ctl/src/main.rs, redis-ctl/src/commands.rs)
--     the commands and `main` with its exit codes; Main/RulePanics, ConfPanics, FeedPanics and Panics
--   Tests
--     a small concrete world, the theorems applied to it, and runs of the definitions
--
-- A handler loads the shared configuration once, so it is an argument of `handle_request`. The field
-- `data` of `FilteringConfig` is called `filtering_data` here. Every loop of the source but one runs
-- over a list and is structural recursion. The loop over SCAN in `auto` ends when Redis replies the
-- cursor 0, and has fuel: one unit for each reply is enough, the number `n` of the relation `Scans`,
-- and a run that is short of fuel returns `none`, which the source never does. The order of the
-- suffixes is cast to `u8` in the source, hence the bound of 255 labels in theorems about it; a name on
-- the wire has at most 127. The lines of the file that `add_to_filter` reads are read at once.
-- A request is one step in Signals/Reach: two handlers are not interleaved within it, but the
-- outside world may answer each call as it likes. `to_lowercase` is ASCII's, which is enough to
-- compare with "tcp" and "udp".
--
-- What the tool and the daemon share is read through the interfaces `SharedSets`, `SharedHashes` and
-- `SharedFlags`, and the rules that `auto` finds and writes through `Hashes` and `Writes`: each says
-- what the commands of Redis do to the sets or hashes that they name, and that Redis answers. SADD needs a
-- member and HSET a value for each field, as Redis documents. `Flags` says what HSET replies where the
-- field is there, and `Matches` how the keys that SCAN replies begin.
--
-- Not modelled: the logging, and the parsing of the command line by clap, whose result is an argument
-- of the tool's `main`. `println!` of the tool panics when standard output cannot be written, as when a pipe
-- is closed; here it always writes, so that theorems about the tool hold where standard output can
-- be written. `reqwest::blocking::Client::new` may panic, and does where `client_new` says so.

pub mod Base
pub mod Net
pub mod Errors
pub mod Exec
pub mod Redis
pub mod Dns
pub mod Resolver
pub mod Env
pub mod RedisMod
pub mod Filtering
pub mod Handler
pub mod Config
pub mod Signals
pub mod Start
pub mod RedisCtl
pub mod Tests
