-- ===== src/Portal.antt =====
-- The management portal: headfwd-sidecar/portal/frontend/src.
pub mod Uri
pub mod Url
pub mod Decimal
pub mod Client
pub mod Widgets
pub mod UserRow
pub mod NodeRow
pub mod Trim
pub mod Users
pub mod Countdown
pub mod Panel
pub mod Onboard
pub mod UserList
pub mod Layout
pub mod ConnectionStatus
pub mod App
