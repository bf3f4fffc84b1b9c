-- ===== src/Turns/Persist.antt =====
-- The file of a conversation's turns: apps/agent-server/src/runner/turnState.ts, reading what was
-- written, and the value that is written. `JSON.parse` and `JSON.stringify` belong to the language:
-- the file is carried as its value. A number in the file is a natural number here, so truncation
-- changes nothing. `Date.parse` and `localeCompare` depend on the runtime and are parameters.
mod Read
mod Write
unfoldable pub use Read.*
unfoldable pub use Write.*
