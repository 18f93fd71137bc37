-- ===== src/Controllers/Chats.antt =====
-- src/controllers/chats_controller.rs
use hush_net_backend.Models.{Devices}
use hush_net_backend.Store.{Exec, pure, map_err, ◌>>=◌}
use hush_net_backend.Web.{Response, respond, error, chats}
use hush_net_backend.Repository.Chats.{get_chats_for_device}

unfoldable pub get_all_chats : Devices → Exec Response Response
get_all_chats sender = do
  listed ← map_err (λ _. respond 500 (error "Internal server error")) (get_chats_for_device sender)
  pure (respond 200 (chats listed))
