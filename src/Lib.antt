-- ===== src/Lib.antt =====
-- Corella is a meeting assistant that one hosts oneself: a server (server/app, Python) takes the audio
-- of a meeting over a WebSocket, cuts it into utterances, has them transcribed, tells the voices
-- apart, and shows suggestions, action items and a report to the people of an organization. This
-- library models the server's own logic.
--
-- Prelude      shared names: tests on numbers, lists and tables of rows, Python's `str` as the list of
--              its code points.
-- Http         what a request handler answers: a value, or the HTTPException that it raises. What a
--              handler has not committed when it raises is rolled back, so an error has no state.
-- Vad          server/app/services/vad/vad.py, `UtteranceDetector`: audio in, utterances out. The
--              classifier of a frame, which a library does, is a parameter with a state of its own.
--              The loop of `feed` recurses on the length of what is left over, and every round takes a
--              frame off it.
-- RecordingLock  server/app/services/recording_lock.py and the loop that renews the lock in
--              server/app/ws/live_session.py. Redis is a parameter, a record of its commands with what
--              the program relies on. A renewal and a release are two commands each, which are steps of
--              their own, so that other sessions can come between them (Holder, Race). Renewal has the
--              loop, with the rounds whose renewal fails.
-- Organizations  server/app/api/organizations.py, server/app/api/deps.py, `register` of
--              server/app/api/auth.py and server/app/services/organizations.py. A request goes from a
--              token to an account (Deps), to the active organization and membership (Service), and
--              then to its handler (Members, Invites, Groups), which reads and writes the tables of
--              Model. Requests puts all the handlers that write into one step, and runs sequences of
--              them. `settled` is what resolving the active organization commits before the handler.
--              Tables holds the invariant of the tables, Preserve its proofs handler by handler;
--              Permits the table of permissions.
-- Diarization  server/app/services/diarization/cluster.py and the loop of `reconcile_diarization` in
--              server/app/workers/tasks.py that claims registered voices for those of a window. Assign
--              has the loop that gives segments to the voices and Overlap the search in it, Promote
--              the loop that gives speakers to the voices that have spoken enough. What the embedding
--              model and the index compute are parameters, and so is which segments still exist.
-- Meetings     the levels of access in server/app/api/meetings.py, and the visibility of documents in
--              server/app/services/access.py and server/app/api/kb.py, over the same tables.
-- Transcript   server/app/services/transcript_format.py: the names of the speakers, and their shares.
-- Chunking     server/app/services/embeddings/chunking.py. `chunk_text` recurses on fuel, the length
--              of the text; it gives no result where the fuel ends.
-- ActionItems  server/app/services/copilot/action_items.py.
-- Storage      server/app/core/storage.py: range requests over the bytes of a file, and the streaming of
--              an upload to the disk (Save), where every call may raise. The loop over chunks recurses on
--              fuel, the bytes that remain.
-- CallHooks    server/app/services/admin/call_hooks.py: what is redacted (Redact), the headers and their
--              secrets (Secrets), and the two dispatches with the rows that they log (Calls). httpx,
--              decryption and json are parameters.
-- LiveSession  server/app/ws/live_session.py: the state of a session and its handlers, which use Vad, and
--              the receive loop with what the other tasks do between two messages, as one sequence of
--              events (Loop). Finish has the handler from the lock to the finished meeting, with what may
--              raise on the way, and uses Mixing.
--              Connect has the first frame and the gate, over the tables of Organizations and the lock.
-- Alignment    server/app/services/alignment/align.py, and the loops of live_session.py and tasks.py that
--              put together what one voice says in a row.
-- Upload       `process_meeting_audio` of server/app/workers/tasks.py, which uses Alignment. What ffmpeg, the
--              transcription and the diarization give is a parameter, and so is whether the rows can be
--              stored and a failure recorded.
-- Costs        server/app/services/admin/costs.py over the ledger of server/app/services/copilot/cost.py.
--              The amounts and their addition are a parameter without laws, since they are floats, and a
--              sum adds its rows in one order. `_dense_daily` recurses on the number of the days left.
-- Mixing       server/app/services/audio/mixing.py: the chunks of the channels laid over each other, with
--              the arithmetic of numpy's int16 and int32. A conversion that divides floats is a parameter.
-- Providers    server/app/services/llm/resolve.py and server/app/services/asr/resolve.py.
--
-- Ids are numbers, and a new row has an id that was not given before. Times are in seconds or
-- milliseconds, as in the source. Rows stand in the order of their creation. A column that no modelled
-- operation reads is left out.
--
-- Not modelled: what libraries and other services do (hashing, tokens, encryption, the models for speech
-- and language, Qdrant, Redis, ffmpeg, mail), the schema migrations, the web client, and, of the
-- server's own logic, the rest of server/app/workers/tasks.py and of
-- server/app/ws/live_session.py, the tables of prices, and the handlers of settings.
pub mod ActionItems
pub mod Alignment
pub mod CallHooks
pub mod Chunking
pub mod Costs
pub mod Diarization
pub mod Http
pub mod LiveSession
pub mod Meetings
pub mod Mixing
pub mod Organizations
pub mod Prelude
pub mod Providers
pub mod RecordingLock
pub mod Storage
pub mod Transcript
pub mod Upload
pub mod Vad
