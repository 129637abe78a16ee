-- ===== src/Lib.antt =====
-- Playbook dispatcher: it hands Ansible playbooks to the workers of a customer, and collects what the
-- workers report.
--
-- A client asks the API (internal/api) for a run. The dispatch manager (internal/api/dispatch) asks
-- Cloud Connector to deliver it to a runner or to Satellite, in the form of one of two protocols, and
-- stores the run and its hosts. The worker uploads an archive of events, which ingress announces on
-- Kafka. The validator (internal/validator) checks it, answers ingress, and sends the events on as an
-- update. The response consumer (internal/response-consumer) infers statuses from the events and
-- writes them to the run and to its hosts.
--
-- Dispatch and Dispatch/Protocols: internal/api/dispatch/impl.go, db.go and protocols/. A call of
--   `ProcessRun` or `ProcessCancel` takes a `World` (the database, and the requests given to Cloud
--   Connector) and returns the next one with the reply or the panic.
-- Private: internal/api/controllers/private, the creation (both versions) and the cancellation of runs.
-- Validator/Content: `validateContent` of internal/validator/handler.go. Validator/Steps: the rest of
--   that file, and `GetCorrelationId` of internal/common/model/message/utils.go. What it sends is kept
--   in an `Outbox`.
-- ResponseConsumer/Status: the inferences of internal/response-consumer/handler.go.
--   ResponseConsumer/RunHosts: its statements on the table `run_hosts`, as functions on rows.
--   ResponseConsumer/Handler: its `onMessage`, from a message and a store to a store and an outcome.
-- Access: who may call the API. Access/Modes: internal/common/unleash/features and `GetAuthMode`.
--   Access/Identity: internal/api/middleware/identityType.go. Access/Permissions: internal/api/rbac.
--   Access/Kessel: internal/common/kessel/authorization.go, permissions.go and client.go.
--   Access/Workspace: rbac.go and token.go beside them. Access/Enforcement: `EnforcePermissions` of
--   internal/api/middleware/rbac.go, which uses all of these. Access/Psk: pskAuth.go there.
-- Public: internal/api/controllers/public. `ApiRunsList` and `ApiRunHostsList` take the services that
--   `EnforcePermissions` leaves in the context; a condition of a query is a test on rows.
-- Connections: internal/api/connectors/inventory/inventory.go, and recipientStatus.go and
--   highlevelConnectionStatus.go of internal/api/controllers/private.
-- Kafka: internal/common/kafka/kafka.go. Satellite and Ansible: internal/common/satellite/satellite.go
--   and internal/common/ansible/runner.go. Model: internal/common/model.
-- Common: helpers. Tests: runs on small inputs.
--
-- A pointer is an `Option`, a map an association list, an error a value of `Result`. A nil pointer
-- that is dereferenced and an index out of range are values of `Fault`; a panic inside a transaction
-- rolls it back. A status is a value of the enum `runs_status` of migrations/. Loops are recursions on
-- the list they go through or on the number of rounds left, so no fuel is needed. Time stamps stand
-- only in the rows that the public API lists. A map that Go visits in an order of its own is a list
-- in any order. The texts of errors leave out numbers and what libraries say.
--
-- JSON, JSON schemas, uuids, SHA-256, the broker, Cloud Connector, the rate limiter and the answers of
-- the database are parameters: records of functions that the operations take; so are Unleash, the
-- Kessel inventory, tokens, the transport of HTTP and the encoding of a query. `sort.Slice` is the
-- insertion sort, which is one of the orders that Go's documentation allows. A text that is cut in
-- the middle of a character loses that character.
--
-- Not modelled: logging, metrics other than the probes of authorization, configuration, start-up,
-- generated clients, the list of hosts of the private API, the middleware that reads deep objects,
-- the connectors to Cloud Connector and to sources, sleeps with their jitter, and the storage of
-- uploads.
mod Common
pub mod Model
pub mod Satellite
pub mod Ansible
pub mod Kafka
pub mod Validator
pub mod Access
pub mod Dispatch
pub mod Private
pub mod Public
pub mod Connections
mod Tests
pub mod ResponseConsumer
