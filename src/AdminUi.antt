-- ===== src/AdminUi.antt =====
-- The logic of the Streamlit app under Admin UI/app.
pub mod Apps
pub mod Calls
pub mod Errors
pub mod Identity
pub mod Infrastructure
pub mod Register
pub mod Logs
pub mod Setup
