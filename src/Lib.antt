-- ===== src/Lib.antt =====
-- Claude Unbound keeps the messages of a chat in trees: a message that replies to another is its
-- child, each tree runs one message at a time, and the others wait in the tree's queue. The answers
-- of a model reach the client as a stream of Anthropic events, under limits on the rate of requests;
-- a model's name says which provider is asked. This library models these parts.
--
-- Trees (messaging/trees/data.py, messaging/trees/queue_manager.py, messaging/models.py):
--   Trees/Queue.antt       class _SnapshotQueue: put, put_nowait, get_nowait, qsize, get_snapshot,
--                          remove_if_present
--   Trees/Node.antt        IncomingMessage, MessageState, MessageNode
--   Trees/Tree.antt        class MessageTree, each method under its own name
--   Trees/Repository.antt  class TreeRepository
--   Trees/Processor.antt   class TreeQueueProcessor; process_node is cut where it waits: process_skipped
--                          is its early return, process_ended its handlers and its finally block
--   Trees/Processor/Loop.antt  the event loop: a step is what runs between two awaits; a task may be
--                          cancelled before its first step, or while it waits for the tree's lock
--   Trees/Processor/Invariant.antt, Trees/Processor/Serial.antt
--                          what every step of the event loop keeps
--   Trees/Manager.antt     class TreeQueueManager
--   Trees/Json.antt, Trees/Saved.antt  to_dict and from_dict, with JSON as a data type; datetime's
--                          isoformat and fromisoformat are parameters
-- A tree is a value that each operation takes and gives back; what runs under a tree's lock is one
-- function. The manager finds a tree through the repository and hands it to the processor. A write to
-- a node object is a write to the entry of the dictionary, which holds each node under one key.
-- Times are numbers, and the clock's reading is an argument. Tasks and callbacks are effects.
--
-- Stream (core/anthropic/sse.py):
--   Sse.antt               class ContentBlockManager and class SSEBuilder; events are values; and the
--                          block of iter_heuristic_tool_use_sse, which the OpenAI transport (its file
--                          providers/transports/openai_chat/tool_calls.py) writes with the builder
--   Sse/Wire.antt          what a client accepts
--   Sse/Blocks.antt, Sse/Moves.antt, Sse/Protocol.antt, Sse/Notes.antt, Sse/Stream.antt
--                          the invariant between the builder and its client
--   Sse/TaskArgs.antt      buffer_task_args and flush_task_arg_buffers; json.loads and json.dumps are
--                          parameters, and need obey no law
--   Recovery.antt          class RecoveryHoldbackBuffer of core/anthropic/stream_recovery.py
--   Tracker.antt           class EmittedNativeSseTracker of core/anthropic/emitted_sse_tracker.py; it
--                          reads back the events that the builder and the providers have sent
--
-- Block policy (core/anthropic/native_sse_block_policy.py):
--   BlockPolicy/State.antt the events, the state, and the tests on types
--   BlockPolicy.antt       transform_native_sse_block_event and what it calls, on decoded events
--   BlockPolicy/Orderly.antt  the protocol that a provider keeps, and the run of a stream
--   BlockPolicy/Client.antt, BlockPolicy/Sound.antt, BlockPolicy/Steps.antt, BlockPolicy/Accepted.antt
--                          what the client of Sse/Wire sees of the segments
--   BlockPolicy/Contract.antt  the types of blocks and deltas (core/anthropic/stream_contracts.py), and
--                          what has to be sent on
--   BlockPolicy/Typed.antt, BlockPolicy/Carried.antt, BlockPolicy/Whole.antt
--                          the types of the segments, each event, and the whole stream
--   BlockPolicy/Hidden.antt  what is left out when thinking is switched off
--
-- Thinking (core/anthropic/thinking.py):
--   Thinking.antt          class ThinkTagParser; a text is the list of its code points
--   Thinking/Plain.antt    the reference: the whole text, read once
--   Thinking/Tags.antt, Thinking/Rounds.antt, Thinking/Chunks.antt
--                          where tags can begin, one round of the loop, the whole stream
--
-- Router (api/gateway_model_ids.py, api/model_router.py, api/model_catalog.py):
--   Router/Config.antt     of class Settings in config/settings.py: the models, validate_model_format,
--                          resolve_model, resolve_thinking, parse_provider_type, parse_model_name
--   Router.antt            the gateway's model ids, and ModelRouter.resolve; str.lower is a parameter
--   Router/Catalog.antt    build_models_list_response and configured_chat_model_refs
--   Router/Decoded.antt, Router/Resolved.antt, Router/Offers.antt
--                          ids that are read back, names that are resolved, models that are offered
--
-- Messaging (messaging/limiter.py):
--   Messaging.antt         of class MessagingRateLimiter: _enqueue_internal_multi, enqueue, and a round
--                          of _worker; a task that is run comes to an outcome that is an argument, a
--                          cancellation included, which ends the worker
--   Messaging/Refinement.antt, Messaging/Resolved.antt
--                          the queue as one ordered dictionary, and the futures that are resolved
--
-- Limits (core/rate_limit.py):
--   Limits.antt            class StrictSlidingWindowLimiter; one attempt is what runs under the lock
--
-- Prelude.antt passes on the names of the library and of its parts: tests on numbers and texts, lists,
-- dictionaries with text keys, tables with number keys, and texts as lists of code points.
--
-- Fuel: the walks of get_descendants, get_pending_children and cancel_branch take fuel, and give
-- `none` when it is used up. On a tree without a cycle some number is enough, and every larger one
-- gives the same result. The loop that drains the queue takes as much as the queue is long, and one
-- more. The loop of the think parser's feed takes one round more than its buffer is long, and the
-- theorem on it shows that this is enough.
--
-- The times of Limits and Recovery are natural numbers of ticks, not floating-point seconds.
--
-- Not modelled: logging, the token estimate of the builder, the text of an event and how it is cut and
-- parsed, the splice and the repair of a broken stream, the conversion of requests; the platforms,
-- providers, routes, the other settings, the command line and the front end, which are input and
-- output or configuration.
mod Prelude
pub mod Trees
pub mod Sse
pub mod Limits
pub mod Recovery
pub mod Tracker
pub mod Thinking
pub mod BlockPolicy
pub mod Router
pub mod Messaging
