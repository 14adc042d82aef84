-- ===== src/FlowBalancing.antt =====
-- lispd/fwd_policies/flow_balancing: how a packet's hash chooses the source and destination locators.
pub mod Address
pub mod Hcf
pub mod Select
pub mod Fill
pub mod Calculate
pub mod Forward
mod Tests
