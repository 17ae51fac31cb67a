-- ===== src/Tests.antt =====
-- Concrete instances of the interfaces, runs of the models on small inputs, and the theorems at
-- concrete inputs.
mod Beast
mod Values
mod Queue
mod Pool
mod Crew
mod Logs
mod Settings
mod Routes
mod Connections
mod Conversations
mod Serving
mod Life
mod Exchanges
mod Answers
