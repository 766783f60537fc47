-- ===== src/Client/ClosePolicy/Examples.antt =====
-- src/websocket-close-policy.ts on concrete closes.
use vip_real_time_collaborat.Base.{◌≡◌, refl, true, false, none, some}
use vip_real_time_collaborat.Client.ClosePolicy.{
  physical, room, collaborator_limit_exceeded, get_web_socket_close_policy,
}

-- A full server is tried again, a protocol failure and a room that rejects are not.
policies :
    (get_web_socket_close_policy physical (some 4003) false ≡ record {
      should_retry = true;
      error_code = collaborator_limit_exceeded;
      include_retry_metadata = false;
    })
    × (((get_web_socket_close_policy physical (some 4006) false).should_retry ≡ false)
        × ((get_web_socket_close_policy room none false).should_retry ≡ false))
unfolding get_web_socket_close_policy
policies = (refl, (refl, refl))
