-- ===== src/Shared/Url.antt =====
-- dashboard/src/shared/url.ts: the addresses of the pages (`app`) and of the services.
pub mod App
pub mod Api
