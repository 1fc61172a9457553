-- ===== src/Fleet.antt =====
-- The Fleet Manager, ros2_ws/src/warehouse_bringup/warehouse_bringup/fleet_manager_node.py.
-- A handler takes the node's state and returns the new one; what it publishes is appended to `out`.
pub mod State
pub mod Route
pub mod Publish
pub mod Traffic
pub mod Dispatch
pub mod Recovery
pub mod Rebalance
pub mod Messages
pub mod Callbacks
mod Samples
