-- ===== src/Server.antt =====
-- The server's database accessors (internal/server/store) and the handlers of its API
-- (internal/server/api). A request is given by what its parsers make of it: a JSON body decodes or
-- not, an id or an instant parses or not.
pub mod Tables
pub mod Http
pub mod Devices
pub mod Timesheets
pub mod Admin
pub mod Settings
pub mod Keys
pub mod Users
pub mod Login
pub mod Downloads
pub mod Reports
pub mod Examples
