-- ===== src/Lib.antt =====
-- tapr, the Terminus Application Runtime: a WebSocket gateway between clients and applications, an
-- operator for the middleware that applications ask for, and watchers of system events.
--
-- The parts and their files:
--
-- - Ws: the WebSocket gateway. A client connects through `RequireHeader` (pkg/ws/middleware), which
--   gives the connection its identity; the server (pkg/ws/server.go) keeps a table of users and their
--   connections, three queues (read, write, close) with a routine each, and a ticker that expires
--   connections. Applications reach it by HTTP (cmd/websocket/app/handler.go).
--   - Ws/Types: the messages, connections, users and the server (pkg/ws/ws_types.go, server.go).
--   - Ws/Filter: `NewFilter`, its filters and `Result` (pkg/ws/filters.go).
--   - Ws/Server: `addClient`, `closeConns`, and one round of `routineWrite` and of `checkExpired`.
--     A map is an association list (Base/Dict), whose order stands for the order of one iteration.
--     A nil pointer that is followed is `none`.
--   - Ws/Select, Ws/Table, Ws/Close, Ws/Deliver: the laws of selection, table, closing and delivery.
--   - Ws/Loop: the server as it runs, a step for each handler and each atomic part of a routine.
--     `closeConns` gives its lock up between the choice of the connections and their removal, so it
--     is two steps. A send on a full queue waits, so it is a step only where the queue has room (500).
--     A new connection has an id that no connection of the table has (`uuid.New`).
--   - Ws/Session: the life of one connection (`New`, `onConnection`), from the events that it sees to
--     the calls that it makes.
--   - Ws/Gateway: the HTTP handlers, `RequireHeader`, `List`.
-- - Nats: the users of the NATS server (pkg/workload/nats/helper.go). A MiddlewareRequest names a user,
--   the subjects it owns and exports, and the subjects of other applications that it refers to.
--   - Nats/Types, Nats/Names: the data, and the names of subjects and owners.
--   - Nats/Access: `getAllowPubSubSubjectFromMR` and `createOrUpdateUser`; Nats/Users: the user list
--     and `DeleteUser`, whose loop is modelled with the array that its slices share.
-- - Corefile: the configuration of CoreDNS (cmd/sys-event/watchers/corefile.go). It has a template for
--   each zone of a user and a view for clients in the cluster, in the VPN and elsewhere.
--   - Corefile/Types, Corefile/Templates: the file, `addUserTemplates`, `UpsertCorefile` and
--     `RemoveTemplateFromCorefile`.
--   - Corefile/Address: `subDNSSplit` and `getUserLocalIp`. The search for the logarithm has fuel 63,
--     which is enough for every positive int64. Corefile/Address/Decimal is about the
--     numerals under which the map has the addresses.
--   - Corefile/Zones, Corefile/Regenerate: `RegenerateCorefile`, from the answers of the API server.
-- - Requests: the operator's queue of middleware requests (cmd/middleware/operator/middleware-request).
--   - Requests/Dispatch: `handler` (handler.go), with `dispatch` for its switch, over the methods that it
--     calls, which are a parameter.
--   - Requests/Worker: `processNextWorkItem` (controller.go), over the attempts of one item, for a number
--     of rounds; the loop of a deletion has no bound in the code, and its theorem gives a number of
--     rounds that is enough.
-- - Backup: backups and restores of PostgreSQL and KVRocks clusters (cmd/middleware/operator and
--   pkg/workload).
--   - Backup/Types, Backup/Services, Backup/Status: the resources (pkg/apis/apr/v1alpha1), the calls of
--     the clients on an arbitrary world, each of which may fail, and `updateStatus`. A handler also keeps
--     the object of the work queue, which it changes in place, and a log of the statuses that the server
--     took and of the jobs that were created.
--   - Backup/Pg, Backup/PgBackup, Backup/PgRestore, Backup/KvRocks: the handlers of the four controllers
--     (pgcluster-backup, pgcluster-restore, kvrocks-bakcup and kvrocks-restore). `wait.PollWithContext` is
--     a parameter, of which the theorems use what it is documented to do (`IsPoll` of Base/Effect).
--   - Backup/Trace: the order of statuses and jobs as an automaton over the log, with the rules for the
--     steps and the handlers; Backup/Retry: the retries of the work queue.
--   - Backup/Tasks: `ForceCreateNew...` and `WaitForAll...Complete` (pkg/workload/citus/helper.go,
--     pkg/workload/kvrocks/helper.go), with the documented behaviour of the server as `IsServer`. Its view
--     shows the tasks without their status, which the server drops from a task that is created (the
--     resources of config/crds have the status as a subresource).
--   - Backup/Watcher: the events of system backups and the backups of all clusters
--     (cmd/middleware/operator/backup).
-- - Postgres: what a MiddlewareRequest for PostgreSQL makes of the nodes of the cluster.
--   - Postgres/Client: the client of a node with the statements that it sends (pkg/postgres/client.go);
--     the driver is a parameter.
--   - Postgres/Request: the handler (cmd/middleware/operator/middleware-request/handler_pg.go), with
--     `GetPGClusterAdminUserAndPassword` and `GetDatabaseName` (pkg/workload/citus/helper.go). Its children
--     prove what the nodes have afterwards, from what PostgreSQL is documented to do (`IsPostgres`).
-- - Redix: what a MiddlewareRequest for Redis makes of the namespaces of KVRocks.
--   - Redix/Client: the commands of `kvrClient` (pkg/workload/kvrocks/helper.go), over a driver.
--   - Redix/Request: the handler (cmd/middleware/operator/middleware-request/handler_redis.go). Its children
--     prove what becomes of the table of namespaces, from what KVRocks is documented to do
--     (`IsKvRocks`).
-- - Minio, Sql, Rabbit, Elastic: what a MiddlewareRequest makes of MinIO, MySQL and MariaDB, RabbitMQ
--   and Elasticsearch (handler_minio.go, handler_mysql.go, handler_mariadb.go, handler_rabbitmq.go and
--   handler_elasticsearch.go of cmd/middleware/operator/middleware-request, with pkg/workload). The
--   children prove what the service has afterwards, from what it is documented to do (`IsMinio`,
--   `IsSql`, `IsRabbit`, `IsElastic`). A service is a table of facts where that serves (Requests/Facts).
--   A deletion gives up quietly where the secret of the administrator is not found; Requests/Missing
--   tells how that answer goes through a chain of calls, and Minio/Policy what a policy allows.
-- - Vault: the secrets that are kept on an Infisical server (pkg/vault/infisical).
--   - Vault/Crypto: `Encrypt` and `Decrypt` (crypto/aes-256-gcm.go), `EncryptAssymmetric` and
--     `DecryptAsymmetric` (crypto/nacl-box.go), over the primitives of the libraries (`IsCrypto`).
--   - Vault/Secrets: the clients (controllers/secret.go, workspace.go, user.go) over a server
--     (`IsInfisical`); a panic is an error here.
--   - Vault/Handlers: the handlers of secrets (controllers/secret.go).
--
-- Parameters stand for code outside the repository: JSON (`json.Marshal`, `json.Unmarshal`),
-- digests, bcrypt, random ids, the clock, the parser of Corefiles, the API server's answers, polls
-- and retries, the ciphers, the answers of Infisical, and the clients of PostgreSQL, KVRocks, MinIO,
-- MySQL, RabbitMQ and Elasticsearch. Three parts of the repository that are
-- not modelled are parameters too: the copy of a KVRocks backup's data, the backup of a Redis
-- cluster, and its proxy's configuration. Apart from the logarithm and the digits of a number (20,
-- enough for 64 bits), no loop has fuel: each is by recursion on a list or on a number of rounds
-- that it fixes at its start.
--
-- Not modelled: the network and the HTTP framework, logging, the debug handler, the closed-channel
-- branches of the routines (nothing closes the channels), NATS streams and the text of its
-- configuration file, the shell commands that copy the data of a backup, generated code, the
-- requests for MongoDB, the users and tokens of the vault, and the other controllers and
-- watchers of the repository.

pub mod Backup
pub mod Base
pub mod Corefile
pub mod Elastic
pub mod Minio
pub mod Nats
pub mod Postgres
pub mod Rabbit
pub mod Redix
pub mod Requests
pub mod Sql
pub mod Vault
pub mod Ws
