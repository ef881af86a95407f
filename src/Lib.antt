-- ===== src/Lib.antt =====
-- A model of theokit-gateways, a TypeScript library that connects an agent to chat platforms, and the
-- theorems that make its core correct. Paths are from the repository's root.
--
-- How the parts interact. An app builds its channels with `createChannels`, one adapter of a platform,
-- and gives the adapters to a `GatewayRunner`. The runner connects them, wires their inbound events,
-- and dispatches each event: `pre_inbound` hooks, a slash command or the handler, and the handler's
-- replies, which go through `deliver` to the platform's adapter and to the `post_outbound` hooks. A
-- `SessionRouter` names the agent of an event, a `DeliveryRouter` sends without an event. Adapters cut
-- a long reply into parts of their platform's size, most of them with `chunkText`; the webhook ones
-- share a server that captures the raw body, and the verifiers of their tokens hold the platform's
-- signing keys. Some adapters keep bounded stores, speak JSON-RPC to a child, or speak IRC themselves.
--
-- Files.
-- Prelude.antt, with Prelude/Tests and Prelude/Lists: names, tests and list functions for all files.
-- Js.antt: strings as lists of UTF-16 code units, numbers, and the string methods that are used.
-- Js/Search, Js/Trim and Js/Utf16 have their laws. JsMap.antt: `Map` and `Set` in insertion order.
-- Event.antt: packages/gateway/src/types/message-event.ts and adapter/base.ts, the shapes passed round.
-- Chunk.antt: packages/gateway/src/text/chunk.ts, `chunkText` (`chunk_text`), with Chunk/Cut, Loop,
-- Ends, Content and Surrogates for its theorems. Grapheme.antt: `chunkByGrapheme` of the same file and
-- packages/gateway-line/src/split.ts. Split.antt: split.ts of the Discord, Slack, WhatsApp, Teams and
-- Mattermost packages; Split/Telegram.antt: packages/gateway-telegram/src/split.ts.
-- Session.antt: packages/gateway/src/session/router.ts.
-- Stores/SeenUids, Stores/Threads, Stores/ReplyTokens: seen-uids.ts and thread-store.ts of
-- packages/gateway-email/src, and packages/gateway-line/src/reply-cache.ts.
-- Allowlist.antt and Inbound.antt: allowlist.ts, and inbound-rules.ts with own-number.ts, of
-- packages/gateway-whatsapp/src. Irc.antt: packages/gateway-irc/src/line.ts.
-- Irc/Split, Irc/Registration, Irc/Stream and Irc/Session: split.ts, registration.ts and, for the last
-- two, adapter.ts of the same package: the commands' bodies, the handshake, the lines of the socket's
-- chunks, and the connection.
-- Rpc.antt: json-rpc.ts of packages/gateway-imessage/src, and of packages/gateway-signal/src, its
-- copy. Rpc/Settle, Once, Board, Refines and Deadline have its theorems.
-- KeySet/Google.antt: packages/gateway-google-chat/src/key-set.ts. KeySet/Teams.antt:
-- packages/gateway-teams/src/published-key-set.ts. KeySet.antt and KeySet/Good: what they share.
-- Filters.antt: filters.ts of packages/gateway-mattermost/src and mention-gate.ts of
-- packages/gateway-teams/src.
-- Hooks.antt: packages/gateway/src/hooks/executor.ts and types.ts; Hooks/Check: its constructor.
-- Runner/Dispatch.antt: `dispatch`, `matchSlashCommand` and `deliver` of
-- packages/gateway/src/runner/gateway-runner.ts. Runner/Lifecycle.antt: `start` and `stop` of the same
-- file as a step relation `Step`; a step is what the code does between two awaits.
-- Channels.antt: packages/gateway/src/channel/create-channels.ts. Delivery.antt:
-- packages/gateway/src/delivery/router.ts. Webhook/RawBody and Webhook/Listener:
-- packages/gateway/src/webhook/express-server.ts. Tests: runs, and the theorems at concrete inputs.
--
-- Conventions. A function that throws answers a value of `Outcome`, or of a result type of its own.
-- Code of the application or of a platform (handlers, hooks, adapters, `create`) is a function from
-- a world to a world and a result, its throws among the results. What a hook or a handler throws is
-- a value whose `message` is printed, or `null` or `undefined`, whose `message` cannot be read; a
-- `message` that no string can be made of is not modelled. The name of a platform is any text,
-- since the registry of platforms is open. `redactSecrets`, `Intl.Segmenter` and the
-- `Buffer.byteLength` of a request's body are parameters, and so are `createPublicKey`,
-- `toLowerCase` and base64. An object that lives across awaits is a state that takes events, one
-- for each piece of code between two awaits, in any order; each theorem about it holds for every
-- list of events. Loops that shorten a text run on fuel, the text's length, and run out of it
-- nowhere: the theorems say that they end with their answer.
--
-- Not modelled: parameters that `JSON.stringify` refuses, the platforms' SDKs and HTTP calls, the
-- patterns of `redactSecrets`, the markdown dialects, the sending and reading of messages by the
-- adapters, two dispatches that interleave, and the set of handlers that `stop` waits for.
pub mod Prelude
pub mod Js
pub mod Chunk
pub mod Split
pub mod Grapheme
pub mod Event
pub mod Session
pub mod JsMap
pub mod Stores
pub mod Tests
pub mod Hooks
pub mod Channels
pub mod Delivery
pub mod Webhook
pub mod Allowlist
pub mod Irc
pub mod Filters
pub mod Rpc
pub mod KeySet
pub mod Inbound
pub mod Runner
