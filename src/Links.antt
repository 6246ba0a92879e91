-- ===== src/Links.antt =====
-- The links and their servers: src/com/baidu/terminator/manager/service, manager/bo/Link.java,
-- manager/mapper/LinkMapper.xml, server/common/ServerImpl.java and server/ServerContext.java.
pub mod Maps
pub mod Table
pub mod Control
pub mod Requests
pub mod Services
mod Machine
mod Examples
