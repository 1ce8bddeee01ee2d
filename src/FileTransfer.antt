-- ===== src/FileTransfer.antt =====
-- internal/filetransfer: chunks, Merkle tree, the sender's window and the receiver.
pub mod Merkle
pub mod Chunker
pub mod Receiver
pub mod Sender
