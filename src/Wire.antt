-- ===== src/Wire.antt =====
-- What both ends of a connection share: MessagePack values, and the table of requests that wait for
-- an answer.
pub mod Values
pub mod Pending
