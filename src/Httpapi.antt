-- ===== src/Httpapi.antt =====
-- internal/httpapi: what the pages make of the stored history, and the parameters of a request.
pub mod Dashboard
pub mod Params
mod Tests
