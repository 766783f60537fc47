-- ===== src/Server/Requests/Vouched.antt =====
-- websocket-server/server.ts: who is connected has been vouched for by a token.
use vip_real_time_collaborat.Base.{
  ℕ, suc, ◌≡◌, ◌≢◌, ◌⊎◌, refl, inl, inr, Bool, true, false, Option, none, some, List, [], ◌∷◌, All,
  ◌==◌, Bool-cases,
}
use vip_real_time_collaborat.Base.Text.{Text}
use vip_real_time_collaborat.Packages.{Jwt}
use vip_real_time_collaborat.Auth.{SyncTokenPayload, request_query}
use vip_real_time_collaborat.Auth.Tokens.{Signed, is_request_authenticated-Signed}
use vip_real_time_collaborat.Server.Limits.{
  WebSocketWithIdentity, Config, should_allow_collaborator, should_allow_connection,
}
use vip_real_time_collaborat.Server.Limits.Counts.{leave}
use vip_real_time_collaborat.Server.Upgrade.{Request, handle_upgrade, upgrade}
use vip_real_time_collaborat.Server.Upgrade.Routes.{HasRoute, upgrade_iff}
use vip_real_time_collaborat.Server.{
  Server, client_of, handle_connection, turn_away, close_socket, admit_socket,
}
use vip_real_time_collaborat.Server.Capacity.{unidentified}
use vip_real_time_collaborat.Server.Requests.{
  Arrival, http_requested, upgrade_requested, timer_fired, socket_closed, maintenance,
}

module _ (j : Jwt) (search_get : Text → Option Text) (secret : Text) where
  -- The request's token is signed, unexpired and gives the grant, and the request has a route for it.
  abbrev pub Vouches : Request → SyncTokenPayload → Type 0
  Vouches request grant =
      HasRoute request grant
      × ((token : Text) × ((search_get (request_query request.url) ≡ some token)
            × ((token ≢ []) × Signed j token secret grant)))

  -- Some upgrade that arrived vouches for a grant of which `P` holds.
  abbrev pub HasArrived : (SyncTokenPayload → Type 0) → List Arrival → Type 0
  HasArrived P [] = ⊥
  HasArrived P (upgrade_requested request completes ∷ arrivals) =
      ((grant : SyncTokenPayload) × (Vouches request grant × P grant)) ⊎ HasArrived P arrivals
  HasArrived P (http_requested url ∷ arrivals) = HasArrived P arrivals
  HasArrived P (timer_fired id ∷ arrivals) = HasArrived P arrivals
  HasArrived P (socket_closed id code ∷ arrivals) = HasArrived P arrivals
  HasArrived P (maintenance ∷ arrivals) = HasArrived P arrivals

  -- A member of wss.clients has no identity, or the one of a grant that arrived.
  abbrev pub IsKnown : List Arrival → WebSocketWithIdentity → Type 0
  IsKnown arrivals ws =
      (ws.user_id ≡ none)
      ⊎ HasArrived
          (λ grant. (ws.user_id ≡ some grant.user_id) × (ws.wp_client_id ≡ client_of grant))
          arrivals

  -- A document is served to a socket under the name that a grant that arrived gives.
  abbrev pub IsGranted : List Arrival → ℕ × Text → Type 0
  IsGranted arrivals document = HasArrived (λ grant. document.1 ≡ grant.room_name) arrivals

  -- The sockets and the documents of a server are vouched for.
  pub record IsVouched (arrivals : List Arrival) (s : Server) : Type 0 where
    pub clients : All (IsKnown arrivals) s.clients
    pub documents : All (IsGranted arrivals) s.documents

  HasArrived-later :
      (P : SyncTokenPayload → Type 0) (a : Arrival) (arrivals : List Arrival)
      → HasArrived P arrivals
      → HasArrived P (a ∷ arrivals)
  HasArrived-later P (upgrade_requested request completes) arrivals h = inr h
  HasArrived-later P (http_requested url) arrivals h = h
  HasArrived-later P (timer_fired id) arrivals h = h
  HasArrived-later P (socket_closed id code) arrivals h = h
  HasArrived-later P maintenance arrivals h = h

  IsKnown-later :
      (a : Arrival) (arrivals : List Arrival) (clients : List WebSocketWithIdentity)
      → All (IsKnown arrivals) clients
      → All (IsKnown (a ∷ arrivals)) clients
  IsKnown-later a arrivals [] h = tt
  IsKnown-later a arrivals (ws ∷ clients) (inl n, h) = (inl n, IsKnown-later a arrivals clients h)
  IsKnown-later a arrivals (ws ∷ clients) (inr k, h) =
      (inr (HasArrived-later _ a arrivals k), IsKnown-later a arrivals clients h)

  IsGranted-later :
      (a : Arrival) (arrivals : List Arrival) (documents : List (ℕ × Text))
      → All (IsGranted arrivals) documents
      → All (IsGranted (a ∷ arrivals)) documents
  IsGranted-later a arrivals [] h = tt
  IsGranted-later a arrivals (d ∷ documents) (k, h) =
      (HasArrived-later _ a arrivals k, IsGranted-later a arrivals documents h)

  pub IsVouched-later :
      (a : Arrival) (arrivals : List Arrival) (s : Server)
      → IsVouched arrivals s
      → IsVouched (a ∷ arrivals) s
  IsVouched-later a arrivals s v = record {
    clients = IsKnown-later a arrivals s.clients v.clients;
    documents = IsGranted-later a arrivals s.documents v.documents;
  }

  pub IsKnown-leave :
      (arrivals : List Arrival) (id : ℕ) (clients : List WebSocketWithIdentity)
      → All (IsKnown arrivals) clients
      → All (IsKnown arrivals) (leave id clients)
  unfolding leave
  IsKnown-leave arrivals id [] h = tt
  IsKnown-leave arrivals id (ws ∷ clients) (k, h) = elim (Bool-cases (ws.id == id)) [
    | inl e ↦ rw e h
    | inr e ↦ rw e (k, IsKnown-leave arrivals id clients h)
  ]

  pub upgrade-Vouches :
      (request : Request) (grant : SyncTokenPayload)
      → upgrade j search_get secret request ≡ handle_upgrade grant
      → Vouches request grant
  upgrade-Vouches request grant e =
      let (auth, route) = (upgrade_iff j search_get secret request grant).0 e in
      (route, is_request_authenticated-Signed j search_get request.url secret grant auth)

  -- What is the same but for a socket without an identity is vouched for as before.
  turned_away-IsVouched :
      (arrivals : List Arrival) (id : ℕ) (s t : Server)
      → IsVouched arrivals s
      → t.clients ≡ unidentified id ∷ s.clients
      → t.documents ≡ s.documents
      → IsVouched arrivals t
  turned_away-IsVouched arrivals id s t v c d = record {
    clients = rw c (inl refl, v.clients);
    documents = rw d v.documents;
  }

  admit_socket-IsVouched :
      (request : Request) (completes : Bool) (grant : SyncTokenPayload) (multiplex : Bool)
      (arrivals : List Arrival) (s joined : Server)
      → Vouches request grant
      → IsVouched (upgrade_requested request completes ∷ arrivals) s
      → joined.documents ≡ s.documents
      → IsVouched
          (upgrade_requested request completes ∷ arrivals)
          (admit_socket s.next_id grant multiplex s.clients joined)
  unfolding admit_socket
  admit_socket-IsVouched request completes grant true arrivals s joined w v d = record {
    clients = (inr (inl (grant, (w, (refl, refl)))), v.clients);
    documents = rw d v.documents;
  }
  admit_socket-IsVouched request completes grant false arrivals s joined w v d = record {
    clients = (inr (inl (grant, (w, (refl, refl)))), v.clients);
    documents =
        let served : All (IsGranted (upgrade_requested request completes ∷ arrivals))
            joined.documents =
          rw d v.documents in
        (inl (grant, (w, refl)), served);
  }

  pub handle_connection-IsVouched :
      (config : Config) (request : Request) (completes : Bool) (grant : SyncTokenPayload)
      (multiplex : Bool) (arrivals : List Arrival) (s : Server)
      → Vouches request grant
      → IsVouched (upgrade_requested request completes ∷ arrivals) s
      → IsVouched
          (upgrade_requested request completes ∷ arrivals)
          (handle_connection config grant multiplex s)
  unfolding handle_connection turn_away close_socket
  handle_connection-IsVouched config request completes grant multiplex arrivals s w v =
      let clients = unidentified s.next_id ∷ s.clients in
      let joined : Server = record s { clients = clients; next_id = suc s.next_id } in
      let now = upgrade_requested request completes ∷ arrivals in
      elim (Bool-cases (should_allow_collaborator config clients (some grant.user_id))) [
        | inl e ↦ elim (Bool-cases (should_allow_connection config clients (client_of grant))) [
          | inl k ↦
              rw (e, k)
                (admit_socket-IsVouched request completes grant multiplex arrivals s joined w v
                  refl)
          | inr k ↦ rw (e, k) (turned_away-IsVouched now s.next_id s _ v refl refl)
        ]
        | inr e ↦ rw e (turned_away-IsVouched now s.next_id s _ v refl refl)
      ]
