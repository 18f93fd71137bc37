-- ===== src/Controllers/Root.antt =====
-- src/controllers/root_controller.rs
use hush_net_backend.Web.{Response, respond, greeting, status}

abbrev pub root : Response
root = respond 200 (greeting "Welcome to the HushNet API")

abbrev pub health_check : Response
health_check = respond 200 (status "ok")
