-- ===== src/Client/SharedSocket/Views.antt =====
-- src/shared-websocket.ts: what is said of the detached sockets and of the calls of the callbacks alone.
use mathlib.Core.Path.{subst}
use vip_real_time_collaborat.Base.{
  ℕ, ◌≡◌, refl, sym, Bool, true, false, ◌||◌, Option, List, [], ◌∷◌, length, ◌==◌,
}
use vip_real_time_collaborat.Base.Text.{Text}
use vip_real_time_collaborat.Packages.{Lib0, Ws, is_open}
use vip_real_time_collaborat.Protocol.{ProtocolMessage, subscribe, encode_message}
use vip_real_time_collaborat.Client.SharedSocket.{
  SharedWebSocket, Physical, Notice, on_close, Shared, notify, is_active, without_socket,
  unregister, close_physical_socket_normally, physical_send, send_physical_message, finish_close,
  open_physical_socket, register,
}
use vip_real_time_collaborat.Client.SharedSocket.Branches.{by_option, by_test, by_result}
use vip_real_time_collaborat.Client.SharedSocket.Kept.{Kept}

-- Two states with the same sockets and the same notices.
pub record SameView (s t : Shared) : Type 0 where
  pub detached : t.detached ≡ s.detached
  pub notices : t.notices ≡ s.notices
  pub virtual_sockets : t.virtual_sockets ≡ s.virtual_sockets
  pub next_id : t.next_id ≡ s.next_id

module _ (l : Lib0) (w : Ws) where
  physical_send-SameView :
      (bytes : List ℕ) (p : Physical) (faults : List Bool) (s : Shared)
      → SameView s (physical_send bytes p faults s).0
  unfolding physical_send
  physical_send-SameView bytes p [] s = record {
    detached = refl;
    notices = refl;
    virtual_sockets = refl;
    next_id = refl;
  }
  physical_send-SameView bytes p (false ∷ faults) s = record {
    detached = refl;
    notices = refl;
    virtual_sockets = refl;
    next_id = refl;
  }
  physical_send-SameView bytes p (true ∷ faults) s = record {
    detached = refl;
    notices = refl;
    virtual_sockets = refl;
    next_id = refl;
  }

  same : (s : Shared) → SameView s s
  same s = record { detached = refl; notices = refl; virtual_sockets = refl; next_id = refl }

  pub send_physical_message-SameView :
      (m : ProtocolMessage) (s : Shared) → SameView s (send_physical_message l w m s).0
  unfolding send_physical_message
  send_physical_message-SameView m s =
      by_option (λ (r : Shared × Bool). SameView s r.0) (s, true) _ s.physical (λ e. same s)
        (λ p e.
          by_test (λ (r : Shared × Bool). SameView s r.0) (is_open p.ready) _ (s, true)
            (λ h.
              by_result (λ (r : Shared × Bool). SameView s r.0)
                (λ bytes. physical_send bytes p s.faults s) (s, false) (encode_message l m)
                (λ bytes k. physical_send-SameView bytes p s.faults s) (same s))
            (λ h. same s))

  pub close-SameView : (s : Shared) → SameView s (close_physical_socket_normally w s)
  unfolding close_physical_socket_normally
  close-SameView s =
      by_option (SameView s) s _ s.physical (λ e. same s)
        (λ p e.
          by_test (SameView s) (is_active p.ready) _ s
            (λ h. record {
              detached = refl;
              notices = refl;
              virtual_sockets = refl;
              next_id = refl;
            })
            (λ h. same s))

  pub finish_close-SameView : (b : Bool) (s : Shared) → SameView s (finish_close w b s)
  unfolding finish_close
  finish_close-SameView b s =
      by_test (SameView s) (b || length s.virtual_sockets == 0) (close_physical_socket_normally w s)
        s (λ h. close-SameView s) (λ h. same s)

  same_view :
      (Q : List (Text × SharedWebSocket) → List Notice → Type 0) (s t : Shared)
      → SameView s t
      → Q s.detached s.notices
      → Q t.detached t.notices
  same_view Q s t v q =
      subst (Q t.detached) (sym v.notices) (subst (λ d. Q d s.notices) (sym v.detached) q)

  -- What is said of the detached sockets and the notices alone is kept where it outlasts each notice, and
  -- the closing of a detached socket together with its notice.
  pub View-Kept :
      (Q : List (Text × SharedWebSocket) → List Notice → Type 0)
      (R : ℕ → List (Text × SharedWebSocket) → List Notice → Type 0)
      → ((id : ℕ) (d : List (Text × SharedWebSocket)) (ns : List Notice)
          → Q d ns
          → R id (without_socket id d) ns)
      → ((id : ℕ) (code : Option ℕ) (from_room : Bool) (d : List (Text × SharedWebSocket))
            (ns : List Notice)
          → R id d ns
          → Q d (on_close id code from_room ∷ ns))
      → ((n : Notice) (d : List (Text × SharedWebSocket)) (ns : List Notice)
          → Q d ns
          → Q d (n ∷ ns))
      → Kept l w
          (λ m. Unit {0})
          (λ s. Q s.detached s.notices)
          (λ s. Q s.detached s.notices)
          (λ id s. R id s.detached s.notices)
  unfolding notify unregister register open_physical_socket
  View-Kept Q R removes tells adds = record {
    weaken = λ s q. q;
    sent = λ m s p q. same_view Q s _ (send_physical_message-SameView m s) q;
    sent_within = λ m s p q. same_view Q s _ (send_physical_message-SameView m s) q;
    closed_normally = λ s q. same_view Q s _ (close-SameView s) q;
    finished = λ b s q. same_view Q s _ (finish_close-SameView b s) q;
    opened = λ room grant s p q. q;
    joined = λ room grant p s x e q.
        same_view Q s _ (send_physical_message-SameView (subscribe room grant) s) q;
    unregistered = λ room id s x q. removes id s.detached s.notices q;
    sent_closing = λ id m s p r. same_view (R id) s _ (send_physical_message-SameView m s) r;
    told = λ id code from_room s r. tells id code from_room s.detached s.notices r;
    notified = λ n s x q. adds n s.detached s.notices q;
    released = λ id code s x q.
        tells id code false (without_socket id s.detached) s.notices
          (removes id s.detached s.notices q);
  }
