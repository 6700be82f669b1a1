-- ===== src/Send.antt =====
-- The packets that the server sends: the SMSG functions of src/TFTP.cpp.
pub mod Ack
pub mod Data
pub mod Error
pub mod Oack
