-- ===== src/Lib.antt =====
-- The Go backend of webapp-wago: a WhatsApp API of which the events go to webhooks, to brokers and
-- to agents over the Model Context Protocol (MCP).
--
-- Parts. An HTTP request passes the authentication (pkg/middleware/auth_middleware.go), then the
-- middleware that turns phone numbers into WhatsApp addresses
-- (pkg/middleware/jid_validation_middleware.go with pkg/utils/utils.go), before a handler sees it.
-- The instance service (pkg/instance/service) starts and ends sessions of WhatsApp. An event of
-- WhatsApp goes to CallWebhook (pkg/whatsmeow/service/whatsmeow.go), which hands it to the producers
-- (pkg/events) that its instance names and to the webhook service (pkg/webhook/service/webhook_service.go), which
-- looks up the webhooks of the instance in its cache, resolves names where a filter asks for them
-- and calls the producers. The MCP server (internal/mcp) answers agents; it takes events from a
-- buffer (internal/events/buffer.go) that a webhook receiver and a WebSocket client
-- (internal/events/webhook.go, wsclient.go) fill.
--
-- Files.
--   Base: shared names; Go strings (Text), numbers, optional values, results, list lemmas.
--   Json: decoded JSON values; pickString.
--   Events: Buffer with new, push, poll, clear, len, and the receiver handle. Events/* prove.
--   Stream: RunWS (run_ws) as rounds of dialAndPump with waits. Stream/Backoff proves.
--   Jid: CreateJID (create_jid) with formatMXOrARNumber, formatBRNumber, ParseJID and
--     PrepareNumbersForWhatsAppCheck. Jid/* prove.
--   Validation: ValidateJIDFields (Named), ValidateNumberField, ValidateMultipleNumbers and
--     ValidateNumberFieldWithFormatJid (Numbers), ValidateContactFields (Contact).
--   Producers: pkg/events: Rabbit, Nats, Http and Sockets, each the Produce of one producer and its
--     state. Publishing, Accepting, Posting and Clients prove.
--   Routing: CallWebhook, sendToQueueOrWebhook and maybeInvalidateNames of
--     pkg/whatsmeow/service/whatsmeow.go; Global: SendToGlobalQueues; Sender: cleanSenderID.
--     Subscribing, Asking, Forwarding, Sending and Queues prove.
--   Webhook/Fanout joins Dispatch to the producers.
--   Instances: the model of pkg/instance. Store: instance_repository.go over gorm; Sessions:
--     StartInstance, ReconnectClient, UpdateInstanceSettings and others of whatsmeow.go, on the maps
--     of clients, running states and kill channels; Service, Changes, Ending: instance_service.go;
--     Devices: ForceUpdateJid. Subscribed, Cleaning, Proxies and Showing prove.
--   Sending: pkg/sendMessage/service. Recipients: validateMessageFields, checkSingleUserExists,
--     validateAndCheckUserExists; Retry: ensureClientConnected, its retries and SendText; Media
--     (downloadMedia) and Album (SendAlbum) of album.go; Buttons: the checks of SendButton.
--     Registered, Costs, Once, Safe, Counting and Complete prove.
--   Poll: pkg/poll/service, SavePollVote and GetPollResults. Votes and Tally prove.
--   Proxy: NormalizeProxyProtocol and BuildProxyAddress of pkg/utils/utils.go, without the text of
--     the URL.
--   EventTypes: pkg/internal/event_types/event_types.go.
--   Webhook: the model and toModel; Filter and Glob (MatchesFilter and path.Match), Hosts
--     (validateWebhookHost), Store (the repository as an interface with laws, Memory an instance of
--     it), Service (Create, Update, Delete, Get, Reload, getCached), Names (groupName, contactName,
--     InvalidateNames), Dispatch, Meta (ExtractEventMeta). Steps, Limits and Cache are about any
--     sequence of operations; Pattern, Affix, Allowlist, Firing, Fetches, Outcome and
--     Blocking about one part.
--   Mcp: NewServer, Handle, callTool (server.go, jsonrpc.go) and ServeStdio (stdio.go).
--   Auth: Auth and AuthAdmin.
--
-- Conventions. A Go string is the list of its runes, so strings are valid UTF-8; len counts bytes.
-- ToLower and EqualFold act on the letters of ASCII. path.Match goes by runes, where Go moves by
-- bytes after a star. Errors are values; their texts are constructors. A mutex is the atomicity of
-- an operation, and operations run one after the other. Queries of the database, the DNS,
-- url.Parse, the name resolver, the whatsmeow JID type and JSON text are parameters; what is relied
-- on stands as hypotheses or laws. The AMQP and NATS libraries and the network of the HTTP producer
-- are operations on a world, pauses left out; a panic of the RabbitMQ producer is a flag of its
-- state. The lines of standard input come with their sizes in bytes.
--
-- Bounds and fuel. The parser of patterns and the ranges of a class take the length of the pattern
-- as fuel, which each token shortens. RunWS goes over a finite list of rounds; its waits are
-- below 2^62 nanoseconds, so that doubling stays within an int64. The retries of the RabbitMQ and
-- HTTP producers, of SendText and of a redirect count down from the source's own limits.
--
-- Not modelled: the handlers and services that only build whatsmeow calls, the event handler of a
-- session, the brokers themselves, storage, configuration, telemetry, the MCP tools and the front end.
pub mod Base
pub mod Json
pub mod Events
pub mod Stream
pub mod Jid
pub mod Validation
pub mod EventTypes
pub mod Webhook
pub mod Mcp
pub mod Auth
pub mod Producers
pub mod Instances
pub mod Routing
pub mod Poll
pub mod Sending
pub mod Proxy
