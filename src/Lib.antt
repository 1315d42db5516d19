-- ===== src/Lib.antt =====
-- llamacli, a coding agent for a local llama-server: the parts of it that decide.
--
-- The program runs an agent loop against a language model: it asks the model, runs the tools that
-- the model calls, and feeds the results back. When the conversation fills the context window, the
-- compactor asks the model for a summary and replaces the old messages by it. Around that stand the
-- set-up commands, which download models and engines in ranges and choose ports for the server.
--
-- Which file models which part:
--   Prelude      shared types, Boolean tests, lists over native numbers, texts, integers
--   Ranges       src/setup/downloadProgress.ts, and planRanges of src/setup/download.ts: the byte
--                ranges of a download and their record (Plan, Merge, Complete, Resume: the proofs)
--   Download     downloadRanges of src/setup/download.ts as a step relation of its workers
--                (Invariant, Safe, Requests)
--   Compaction   src/compaction/compactor.ts: Message (with src/backend/types.ts), Checkpoint
--                (src/compaction/checkpoint.ts), Estimate (estimateTextTokens, charBasedEstimate,
--                estimateTokens), Tail (selectKeptTail), Sanitize (sanitizeForSummary), SystemText
--                (splitSystemMessage, composeSystemMessage), Thresholds (recommendThresholds), Trim
--                (trimPartialSummary), Repair and Run (runCompaction), Resume
--                (stripResumePrefix, buildResumePrompt), Notes (src/compaction/notes.ts)
--   Agent        src/agent/loop.ts: Results (capToolResult, capReadFileResult), Budget
--                (computeMaxTokens, the test of maybeCompact, postCompactionBudget), Progress
--                (ProgressTracker of src/agent/harness.ts), Record (executed tools and touched
--                files), State (the fields of AgentLoop), Compact (compact, maybeCompact), Failures
--                and Recover (the errors of a request), Resume (injectResumeContextIfPending), CallWorld,
--                StateTools (applyStateTool), EditTools (what follows a tool's result), ToolCall (a
--                call, with decideToolApproval of src/tools/approval.ts), Turn (runUntilIdle, send),
--                Session (the operations between turns, and the states they reach), Linked (proofs:
--                each tool result has its call)
--   Hermes       src/hermes/selfHeal.ts: the circuit breaker on repeated tool calls
--   Diff         src/tools/diff.ts: the line diff and what of it is shown
--   Calibration  src/setup/calibrateTuning.ts: planCalibration (Fits)
--   UpdateSlots  src/updateSlots.ts: the kept versions of the program (Kept)
--   Ports        src/setup/ports.ts: the port that the server gets
--   ServerPolicy src/setup/serverPolicy.ts: whether a running server may be replaced
--   Tui          src/tui: Selection (selection.ts, the drag and its text), TransientLine
--                (transientLine.ts, the log row of a progress bar), Prompt and PasteChip (the keys of the
--                input box in App.tsx, pasteChip.ts)
--   Tests        runs at concrete inputs
--
-- How the parts meet: Download starts from the record that Ranges reads back and records into it;
-- Run composes Estimate, Tail, Sanitize, Trim and SystemText the way runCompaction does; Agent.Budget
-- sizes what Run is given. Agent.Compact calls Run with retries, Agent.Turn calls it before each
-- request and each tool call, and Agent.Recover when a request overflows. Hermes guards each call,
-- Agent.Progress each round.
--
-- How the code is modelled. A text is the list of its UTF-16 code units. A missing value is none. A
-- ratio such as 0.4 is a fraction of natural numbers, so that products with it are exact where the
-- source has floating point. What the source reads from outside is an argument: the clock, the port
-- probe, the backend's reply and its token counts, the URL key, the parsed sidecar file. Times and
-- token counts are natural numbers; where the source subtracts below zero, integers are used. A loop
-- over an array is recursion on a list. A turn runs over the list of what the world answers in each
-- round (Round), a call over what it answers to that call (CallWorld), a compaction over what each
-- attempt gets (Attempt); a turn that needs a further round than the list has is waiting, which is a
-- result of its own. Fuel occurs three times: plan_from gets the file's size, which is enough because
-- each range has a byte at least, decimal gets one more than the number, because each digit divides
-- it by ten, and strip_prefixes gets the length of the text, because each match takes some of it
-- away. The files of the checkpoint and of the notes are taken to be writable. In the download, a response may end
-- anywhere and a write may store a part of its chunk; skipped and missed say which bytes a run passes
-- over that way. An entry of the sidecar file is
-- taken to hold integers.
--
-- Not modelled: HTTP and process I/O, terminal rendering, the regular expressions of the tool-call
-- salvage and of leaked template text, and the parsing of JSON and YAML; of the agent loop, the
-- streaming of a reply with its reasoning budget, the prefill request and the snapshot file. What
-- these parts answer to the modelled code is an argument of it.
pub mod Prelude
pub mod Ranges
pub mod Download
pub mod Compaction
pub mod Agent
pub mod Hermes
pub mod Diff
pub mod Ports
pub mod ServerPolicy
pub mod Tui
pub mod Tests
pub mod Calibration
pub mod UpdateSlots
