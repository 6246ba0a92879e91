-- ===== src/Stub.antt =====
-- Stub mode: src/com/baidu/terminator/manager/bo/StubData.java and StubCondition.java,
-- plugin/extractor/RequestElement.java, plugin/matcher, server/common/util/StubMatcherComparator.java
-- and server/common/stub/BaseStubServerHandler.java.
pub mod Data
pub mod Matcher
pub mod Comparator
pub mod Handler
mod Examples
