-- ===== src/Record.antt =====
-- Record and replay: src/com/baidu/terminator/server/common/record and replay,
-- server/common/BaseRelayHandler.java, server/http/HttpRelayHandler.java, HttpRecordServerHandler.java
-- and HttpReplayServerHandler.java, over the storage interface of storage/Storage.java.
pub mod Store
pub mod Handler
pub mod Evictions
pub mod Exchanges
pub mod Bursts
pub mod Stubs
mod Examples
