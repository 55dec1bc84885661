-- ===== src/Tests.antt =====
-- Runs of the definitions on small inputs, and the theorems at concrete arguments.
mod Sample
mod Table
mod Start
mod Pool
mod Queue
mod Parse
mod Reply
mod Receive
mod Request
mod Store
mod Conn
mod Comm
mod Gets
mod Accept
