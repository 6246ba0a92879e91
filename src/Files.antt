-- ===== src/Files.antt =====
-- The storage of type FILE: src/com/baidu/terminator/storage/file/FileStorage.java with
-- mapper/DataIndexMapper.xml and StubDataMapper.xml.
pub mod Store
pub mod Stored
pub mod Signing
mod Examples
