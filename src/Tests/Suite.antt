-- ===== src/Tests/Suite.antt =====
-- The unit tests of the source, on the model and packages that can be run. A test states what it asserts,
-- and its proof runs it. A message that a test reads from JSON stands as it is read.
mod Requests
mod Relay
mod Listening
