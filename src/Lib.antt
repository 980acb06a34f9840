-- ===== src/Lib.antt =====
-- rdns-server gives out DNS names below a domain of its own. An HTTP service keeps the records of each
-- name in a backend, and a CoreDNS plugin answers queries from the same etcd.
--
-- The parts, and where they are modelled:
--
--   Base, Text          what all parts share: tests, lists, results, actions on a store (`Exec`), Go's
--                       `int` as ℤ without its overflow, and the functions of Go's packages strings and
--                       path that the program calls, on byte strings. Text.RoundTrip and Text.Clean hold
--                       the lemmas on splitting, joining and cleaning paths.
--   Coredns.Dns         requests and resource records, and the library functions on names, a parameter
--   Coredns.Msg         coredns/plugin/rdns/msg: services (Service, the New* methods, HostType), with
--                       Msg.Path (path.go), Msg.Group (Group) and Msg.Chunks (split255)
--   Coredns.Zones       coredns/plugin/normalize.go: Zones and Name; Coredns.Hosts has Host and SplitHostPort
--   Coredns.Backend     coredns/plugin/backend.go: ServiceBackend
--   Coredns.Etcd        coredns/plugin/rdns/etcd.go and xfr.go: ETCD, as a ServiceBackend
--   Coredns.Lookup      coredns/plugin/backend_lookup.go: A and AAAA; Lookup.Single has CNAME, TXT, PTR
--                       and SOA, Lookup.Extra has SRV, MX and NS
--   Coredns.Handler     coredns/plugin/rdns/handler.go: ServeDNS, with BackendError and plugin.go
--   Coredns.Setup       coredns/plugin/rdns/setup.go: Setup and etcdParse, over the tokens of a controller;
--                       Setup.Lines says what is relied on where the block is read as lines of words
--   Coredns.Start       coredns/coredns.go and coredns/plugin/directives.go: loaders, setCPU, start
--   Model               model/domain.go and model/migrate.go
--   Etcdv3.Names        backend/etcdv3/etcdv3.go: paths, keys, values, slugs and prefixes
--   Etcdv3.Client       its Backend struct, and what it calls, a parameter; Client.Laws says what is
--                       relied on: reads, puts, deletes, and that `range` visits every key of a map
--   Etcdv3.Leases       leases, tokens, frozen slugs and the lookup of keys
--   Etcdv3.Sync         syncRecords
--   Etcdv3.Keys         hosts and sub-domains below a path; setRecord and setSubRecords
--   Etcdv3.Domains      Get, Set, Update, Delete and Renew
--   Etcdv3.Texts        the TXT and CNAME operations, and the migrations
--   Database            database/database.go and model/database.go: the interface to the database and its
--                       rows; Database.Mysql (database/mysql/mysql.go) fills it over package sql
--   Route53             backend/route53/route53.go: the zone and the settings, and how one record is set and
--                       deleted in the zone and the database; Route53.Filters (filterRecords,
--                       convertARecords, findSlugWithZone), Route53.Domains (A records), Route53.Records
--                       (TXT, CNAME, tokens, migrations), Route53.Interface (as a Backend). Mirror.Laws
--                       and Mirror.Sql say what is relied on of the zone, the tables and MySQL's
--                       statements; Route53.Memory is an instance
--   Service             service/token.go and backend/backend.go: the interface Backend, which both backends
--                       fill, tokens and tokenMiddleware, with Service.Handlers (service/handlers.go),
--                       Service.Routes (service/routes.go), Service.Access (who passes) and
--                       Service.Session (requests in a row)
--   Purge               purge/purge.go: one run of the purger, over a Backend and a Database
--   Random              util/random.go: random strings, from random bytes that are a parameter
--   Command             command/etcdv3, command/route53, main.go and metric: Command.Environment (flags and
--                       setEnvironments), Command.Corefile (model/template.go and generateCoreFile),
--                       Command.Backends (NewBackend of both backends and NewDatabase), Command.Etcdv3 and
--                       Command.Route53 (both Actions), Command.Main, and Command.Daemons: the goroutines
--                       of a command as a step relation
--   RdnsClient          client/rdns_client.go: the client, over HTTP and a secret that keeps name and token;
--                       RdnsClient.Wire has what it calls, RdnsClient.Sorting sort.Strings and reflect.DeepEqual
--
-- A method of a backend is an action on the state of what it calls that ends with a value or an error;
-- what was written before an error stays written. The plugin only reads: its lookups are functions of
-- the answers that etcd gives, which do not change within one query. The message that a request shares
-- with its copies is followed where the code writes into it: the question after a lookup is a result.
--
-- Bounds and fuel. A and AAAA call themselves for the target of a CNAME; the model gives them nine
-- levels, and a call with more than seven previous records makes no further one. The loop of split255
-- has one round for each byte and one more. A lease number is cut to 32 bits where TTL does so, a number
-- of labels to 8 bits where Records does, priorities and ports to 16 bits; Go's `int` is otherwise
-- taken without its overflow. Set of either backend tries a hundred draws. The loop of
-- SecureRandomString has a number of rounds, since how many it needs is left to chance; the loop of
-- etcdParse over the block has one round for each token that is left, and one more, which is enough
-- unless the tokens end in a block that is not closed, where no number is. Random draws, bcrypt, base64, the order of `range` over a map, JSON, net.ParseIP and float64 are parameters.
--
-- The steps of a command run in its one goroutine up to the start of the daemons; from there, Daemons has
-- any interleaving. The lexer of the Corefile is a parameter: Setup.Lines assumes that it takes the words
-- of a line as they are where no byte of them has a meaning of its own. A flag of the command line is
-- what cli.Context gives; whether it came from a default is left to the package cli.
--
-- Not modelled: timers, the text/template package beyond what it makes of the one template, logging and
-- timeouts; texts of errors beyond the operation that they name. Expirations are
-- the seconds left for etcd and Unix times for Route 53. A row that cannot be scanned is taken to leave
-- the variable as it was, and the query's rows are read without an error in between, for which the code
-- does not ask. The TTL of record sets is one constant and left out.
pub mod Base
pub mod Text
pub mod Coredns
pub mod Model
pub mod Etcdv3
pub mod Database
pub mod Route53
pub mod Service
pub mod Purge
pub mod Random
pub mod RdnsClient
pub mod Command
