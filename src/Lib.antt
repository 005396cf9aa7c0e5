-- ===== src/Lib.antt =====
-- whatsapp-ai-supervisor: the rules by which the supervisor lets an AI agent answer WhatsApp
-- conversations. The modules model the JavaScript of src/ and workers/whatsapp-web/src/.
--
-- Common: tests, lists, trimmed texts, thrown errors as values, doubles, JSON values, Maps, sorting,
--   and runs that call services (Traces).
-- Ownership: src/domain/conversation-ownership.js, the state machine of who answers a conversation.
-- Permission: src/domain/permission-engine.js and src/domain/types.js, what a policy lets the
--   agent do with a decision of the model.
-- OwnershipStore: src/core/file-conversation-ownership-store.js and
--   src/core/conversation-ownership-store.js, the ledger that the ownership transitions go to.
--
-- Jobs: src/jobs/postgres-job-queue.js and src/jobs/durable-job-worker.js, the queue of durable jobs
--   on a table, and the worker that runs them.
--
-- Attribution: src/domain/outbound-attribution.js, who is behind a text that was sent.
-- OutboundStore: src/core/file-outbound-attribution-store.js, the texts that the program itself sent,
--   and the table that its files implement (OutboundStore/Table).
-- TenantStore: src/core/tenant-store.js, the tenants and the indexes from phone numbers and sessions
--   to them, and the changes of a tenant and its numbers (TenantStore/Management); a call that throws
--   keeps what it has changed.
-- Messages: the messages, tenants, results and services that src/core/orchestrator.js works with.
-- Orchestrator: src/core/orchestrator.js, one inbound message from the model's decision, by way of
--   Permission, to the text, the action and the audit entry.
--
-- Gateway: src/ai/model-gateway.js and src/ai/provider-error.js: the circuit breaker of each model,
--   the limit on concurrent decisions (Gateway/Slots), and the retries and fallbacks along a route
--   (Gateway/Route). The loop of retries is by recursion on the retries that are left. The race of
--   decide against its timer is not modelled.
--
-- Claims: src/core/file-claim-store.js, by which one inbound message is handled once. The digest of
--   a key is an argument.
--
-- DomainEvent: src/domain/domain-event.js, the events that tell what happened, and how one is derived
--   from another.
-- Conversations: src/core/file-conversation-store.js, the history of each tenant's conversations: the
--   lines, who controls a conversation, and (Conversations/Threads) the list of threads.
--
-- Inbound: src/jobs/inbound-decision-handler.js (Inbound/Decision) and the message handling of
--   src/app.js: a message of a customer (Inbound/Receive) is claimed, kept, and queued or handed to
--   Orchestrator unless a person has the conversation (Inbound/Gate); a text from the phone is an echo
--   or takes the conversation over (Inbound/Takeover). The stores are arguments.
--
-- Worker: workers/whatsapp-web/src/session-manager.js, the sessions and their restarts as cells of a
--   store (Worker/Session), what a message event becomes and how a text of the API is known by its
--   echo (Worker/Relay), and the steps of a send (Worker/Send); and spool.js, the messages that the
--   supervisor has not taken (Worker/Spool). The client, its login and `fetch` are arguments.
--
-- Channels: src/channels/whatsapp-linked-device.js and src/channels/whatsapp-cloud.js, what the posts of
--   the worker and of the Cloud API become (Channels/Cloud). A payload is its JSON; a field that is not
--   there or not of the type that the code asks for is `none`. The HMAC is an argument, and the
--   senders, which are HTTP requests, are not modelled. Channels/Relayed and Channels/Echo are about the
--   worker and the supervisor together.
-- Ingress: src/app.js, the two routes that Inbound is reached by, the webhook and the post of the worker.
--   The other routes are not modelled; a body that JSON.parse refuses is `throws`.
-- Moderator: src/ai/moderator-engine.js, the pass over the threads of a tenant that answers and follows
--   up by Orchestrator. The services, the list of threads and the record of a decision are arguments.
mod Common
pub mod Ownership
pub mod Permission
pub mod OwnershipStore
pub mod Jobs
pub mod Gateway
pub mod Claims
pub mod DomainEvent
pub mod Conversations
pub mod OutboundStore
pub mod Inbound
pub mod Worker
pub mod TenantStore
pub mod Channels
pub mod Ingress
pub mod Moderator
pub mod Attribution
pub mod Messages
pub mod Orchestrator
