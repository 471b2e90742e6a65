-- ===== src/Storage/Upload.antt =====
-- src/storage/upload_manager.cpp, the class UploadSession: how a stream of bytes becomes chunks on
-- Telegram, one after the other or several at once. `be` is the storage behind the virtual interface
-- of src/tg/storage_backend.h and `io` is stdio. A result of a background thread is read when the
-- thread is joined, so `join` gives it there; its body is `worker`. Fields that are only displayed
-- (storedBytes, currentAccount, the progress snapshot, times) are left out, and `cancelled_` is
-- read once in a call.
pub mod Backend
pub mod Transient
pub mod Chooser
pub mod Session
pub mod Receive
pub mod Finish
pub mod Save
pub mod Begin
pub mod Manager
pub mod Stopped
pub mod Reach
pub mod Live
mod Tests
