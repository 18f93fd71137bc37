-- ===== src/Routes/Marked.antt =====
-- The task that handle_federated_message of src/controllers/messages_controller.rs spawns, and the
-- peer that it delivers to.
use hush_net_backend.Prelude.{AllOf, ◌≡◌, refl, ap, ◌∙◌, ◌⊎◌, inl, inr, [], ◌∷◌, ◌++◌}
use hush_net_backend.Models.{Uuid, S2sAck}
use hush_net_backend.Store.{World, HttpRequest, Delivery, Result, ok, err, ignore, query, ◌>>=◌}
use hush_net_backend.Store.Keeps.{Keeps-at}
use hush_net_backend.Store.Forward.{bind_step, attempt_step, pure_run}
use hush_net_backend.Web.{AppState, ClientError}
use hush_net_backend.Repository.Federation.{mark_outbox_delivered}
use hush_net_backend.Federation.Client.{forward_messages}
use hush_net_backend.Federation.Client.Frames.{forward_messages-Keeps}
use hush_net_backend.Federation.Outbox.{client_of}
use hush_net_backend.Controllers.Messages.{after_immediate, immediate_delivery}
use hush_net_backend.Repository.Messages.Contents.{Has}
use hush_net_backend.Routes.{Axum}
use hush_net_backend.Routes.Delivered.{ReadsBack, ServedBy, messages_after, forwarded_is_stored}

-- Between the worlds `w` and `v` one request was sent, and the peer that served it has the message of
-- the delivery for each of its devices, or had one under the same id.
abbrev pub StoredBy : Axum → AppState → Delivery → World → World → World → Type 0
StoredBy axum there_state d there w v =
    (req : HttpRequest) × (v.sent ≡ w.sent ++ req ∷ [])
    × AllOf (Has d.payload there.db.messages (messages_after axum there_state there req))
        d.payload.payloads

mark-sent :
    (E : Type 0) (id : Uuid) (w : World)
    → (ignore {F = E} (mark_outbox_delivered id) w).1.sent ≡ w.sent
unfolding mark_outbox_delivered query ◌>>=◌
mark-sent E id w = refl

-- The task changes a row of the outbox only once the peer has the message for every device that it
-- names, with the content of the delivery unless a row with the same message id was there before: the
-- peer answers with this program's handler and reads the body back.
pub marked_is_stored :
    (E : Type 0) (state there_state : AppState) (axum : Axum) (d : Delivery) (w there : World)
    → ReadsBack axum (client_of state) d.api_url d.payload
    → ServedBy axum there_state there w
    → ((immediate_delivery {E = E} state d w).1.db ≡ w.db)
      ⊎ StoredBy axum there_state d there w (immediate_delivery {E = E} state d w).1
unfolding immediate_delivery
marked_is_stored E state there_state axum d w there back serves =
    go (forward_messages (client_of state) d.api_url d.payload w) refl
  where
    go :
        (x : Result ClientError S2sAck × World)
        → forward_messages (client_of state) d.api_url d.payload w ≡ x
        → ((immediate_delivery {E = E} state d w).1.db ≡ w.db)
          ⊎ StoredBy axum there_state d there w (immediate_delivery {E = E} state d w).1
    go (ok a, u) e =
        let (req, sent, stored) =
          forwarded_is_stored (client_of state) d.api_url d.payload w u a axum there_state there
            back serves e in
        inr (
          req,
          ap (λ (x : Result E (Unit {0}) × World). x.1.sent)
                (bind_step _ (after_immediate d) (attempt_step _ e))
              ∙ mark-sent E d.outbox_id u
              ∙ sent,
          stored,
        )
    go (err f, u) e = inl (
        ap (λ (x : Result E (Unit {0}) × World). x.1.db)
          (bind_step _ (after_immediate d) (attempt_step _ e) ∙ pure_run tt u)
        ∙ Keeps-at (forward_messages-Keeps (λ db. db ≡ w.db) (client_of state) d.api_url d.payload)
            e refl)
