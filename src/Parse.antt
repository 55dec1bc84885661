-- ===== src/Parse.antt =====
-- aConnParse.cpp and the number parser of aUtil.cpp: from the bytes of a request line to its words
-- and numbers.
pub mod Tokens
pub mod Line
pub mod Number
pub mod Command
pub mod Header
