-- ===== src/Lib.antt =====
-- Verification of the Skeleton Media package (skeleton_media/): the core of its video-understanding
-- service and of its home-edge control. It models the code as functions by clauses; a call that may
-- raise is a `Result` (`err` is an error of the program's own class, with its code or message,
-- `crash` is any other exception), and a call that changes state returns the new state.
--
-- The parts, and how they interact:
--   Queue      the durable job queue, skeleton_media/video_understanding/queue.py. Clients enqueue jobs;
--              workers claim them under a lease, extend it by heartbeats, and complete or fail them.
--              `Records` is `QueueRecord` with `to_dict` and `from_dict`, `Files` the five directories
--              of a queue with `_read` and `_write`, `Operations` the methods of `FileQueue`.
--   Worker     `VideoWorker.run_once`, skeleton_media/video_understanding/worker.py: recover, claim, run the
--              job under heartbeats, and complete or fail it. What happens to the queue during the job
--              is a list of events, and the execution of the job a function to a result. `Execute` is
--              `_execute` up to the call of the pipeline, `Forever` is `run_forever`, given its rounds.
--   Lifecycle  the states of a processed video, skeleton_media/video_understanding/models.py
--              (`ProcessingState`, `_ALLOWED_TRANSITIONS`, `validate_transition`).
--   Values     the values of a video record, in the same file: the tests of fields, the small types, and
--              `VideoRequest` and `VideoRecord`. `checked_claim` is the constructor `Claim(...)` with
--              its `__post_init__`, and so on; the field `confidence` is called `score`.
--              `Receipts` is `public_receipt`.
--   Remote     the phone remote, skeleton_media/home_edge/adaptive_remote.py: `Contract` is the closed
--              button lists and the broker mapping, `Broker` is `HomeInputBroker`, `Modes` is
--              `HomeModeController`, the profiles and the orientation bridge, `Layouts` the two rendered
--              layouts.
--   Transcript the time covered by a transcript, its normalization and its assessment,
--              skeleton_media/video_understanding/transcript.py: `Cover` is `_union_duration`,
--              `Segments` is `TranscriptSegment` with `normalize_segments`, `Quality` is
--              `assess_quality`, `Parse` is `parse_timestamp` and `parse_vtt`, `Formats` the other parsers,
--              `Captions` is `compact_rolling_captions`, `Compare` is `compare_independent_asr`. Digits
--              are those of ASCII.
--   Artifacts  what a processed video leaves on disk: `Paths` and `Manifest` are
--              skeleton_media/video_understanding/manifest.py, `Items` and `Store` the inventory, `finalize`
--              and the readback of skeleton_media/video_understanding/artifact_store.py. A directory is the
--              list of what `rglob` finds below it, and the store the list of its revisions. A revision
--              directory inside another one or inside the staging directory is not modelled, nor are a part
--              of the path that is a link, the temporary directory of a workspace, and permissions.
--   Cast       the monitor of new releases, skeleton_media/cast/media_release_monitor.py: `Monitor` is a row
--              of its table, `tick` the check of one title that no other call interrupts, cut at the call of the
--              probe into `refresh` and `after_probe`. `Statements` has the statements of ticks and
--              acknowledgements that read or write the claim of an alert as steps of their own, between
--              which any others may come. A row is not deleted. The dates and the pages of the remote
--              site are inputs.
--   Router     the domain of a text by keywords, skeleton_media/video_understanding/domain_router.py.
--   Display    who owns the display, skeleton_media/home_edge/media_display_ownership.py: `Player` is
--              the observation of a player's answer, `Android` the three regular expressions that are
--              searched in a dump of the media sessions, `Display` the decision.
--   Value      JSON values as `json.loads` gives them, with `str`, `int`, `float` and `dict` of them.
--   Base       shared names, Boolean tests, lists over the native numbers, and results.
--
-- Conventions and bounds:
--   * Numbers are natural numbers, and times whole units of them (milliseconds in a transcript, whose
--     coverage ratio is a fraction and whose confidences are thousandths): negative numbers and fractions are
--     not modelled, and a dictionary of a queue record with a time that is not finite, which `from_dict`
--     accepts, is refused in the model. A float that the code rounds is not met: all sums of times are
--     exact here. The delay of a retry is exact too; its power is never computed beyond `max_attempts`.
--   * A call of `FileQueue` holds the queue's lock, so it is one action on the directories, and the
--     histories are lists of whole calls. The clock is an argument of each call. An action that
--     raises keeps what it had written before. Files are kept as the decoded JSON; a file that cannot
--     be read or decoded is `unreadable`. Only job files stand in the directories.
--   * Loops are recursion on the list that they walk, but for `parse_vtt`, whose loop moves an index: it
--     has fuel for one round more than there are lines, which is proved to be enough. The walk over a player's
--     answer stops at depth 4 and at 32 items of a list, as in the code.
--   * Python's library is a parameter: the digest of a key, `str`, `int`, `float` and `dict` on values
--     whose result the model does not compute, the normalization of texts, white space, and the
--     characters and letters that `re` counts as word characters, as spaces and as the same letter. The
--     answers of probes are inputs.
--
-- Not modelled: operating-system errors, file permissions and crashes in the middle of a call; the
-- HTTP, ADB and JSON-printing code of the display module; and the rest of the package (pipeline, the
-- rest of cast, installers and model backends).
pub mod Artifacts
pub mod Base
pub mod Cast
pub mod Display
pub mod Lifecycle
pub mod Queue
pub mod Remote
pub mod Router
pub mod Transcript
pub mod Value
pub mod Values
pub mod Worker
