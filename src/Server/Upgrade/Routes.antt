-- ===== src/Server/Upgrade/Routes.antt =====
-- websocket-server/server.ts: which requests are handed to the ws package.
use vip_real_time_collaborat.Base.{
  ◌≡◌, ◌≢◌, refl, ap, sym, ◌⊎◌, ◌↔◌, inl, inr, Bool, true, false, not, ◌&&◌, Option, List, [], ◌∷◌,
  arith, length, ◌==◌, if◌then◌else◌,
}
use mathlib.Core.Path.{subst}
use vip_real_time_collaborat.Base.Text.{Text, text, ◌===◌, ===_iff}
use vip_real_time_collaborat.Base.Maps.{contains}
use vip_real_time_collaborat.Packages.{Jwt}
use vip_real_time_collaborat.Auth.{
  SyncTokenPayload, AuthResult, authenticated, missing_token, invalid_token,
  is_request_authenticated, get_request_pathname, validate_legacy_room_path,
}
use vip_real_time_collaborat.Server.Upgrade.{
  Request, Decision, bad_request, invalid_multiplex_path, unauthorized, invalid_token_payload,
  missing_auth_token, invalid_auth_token, unsupported_subprotocol, HttpStatus, Failure, reject,
  handle_upgrade, requested_protocols, multiplex_subprotocol, check_path, upgrade,
}

-- The request asks for the multiplex transport at its path, or for none at the path of the granted
-- room.
abbrev pub HasRoute : Request → SyncTokenPayload → Type 0
HasRoute request grant =
    ((contains multiplex_subprotocol (requested_protocols request.sec_websocket_protocol) ≡ true)
      × (get_request_pathname request.url ≡ text "/_ws/vip-rtc"))
    ⊎ ((requested_protocols request.sec_websocket_protocol ≡ [])
        × (validate_legacy_room_path request.url grant ≡ true))

chosen :
    (b : Bool) (payload grant : SyncTokenPayload) (status : HttpStatus) (failure : Failure)
    → ((if b then handle_upgrade payload else reject status failure) ≡ handle_upgrade grant)
      ↔ ((payload ≡ grant) × (b ≡ true))
chosen true payload grant status failure =
    (λ h. (ground (arith, h), refl), λ h. ap handle_upgrade h.0)
chosen false payload grant status failure =
    (λ h. absurd (ground (arith, h)), λ h. absurd (ground (arith, h.1)))

AuthResult-cases :
    (r : AuthResult)
    → ((p : SyncTokenPayload) × (r ≡ authenticated p)) ⊎ ((r ≡ missing_token) ⊎ (r ≡ invalid_token))
AuthResult-cases (authenticated p) = inl (p, refl)
AuthResult-cases missing_token = inr (inl refl)
AuthResult-cases invalid_token = inr (inr refl)

module _ (j : Jwt) (search_get : Text → Option Text) (secret : Text) where
  check_multiplex :
      (request : Request) (payload grant : SyncTokenPayload)
      → (check_path j search_get secret request true payload ≡ handle_upgrade grant)
        ↔ ((payload ≡ grant) × (get_request_pathname request.url ≡ text "/_ws/vip-rtc"))
  unfolding check_path
  check_multiplex request payload grant =
      let (f, g) =
        chosen (get_request_pathname request.url === text "/_ws/vip-rtc") payload grant bad_request
          invalid_multiplex_path in
      let (p, q) = ===_iff (get_request_pathname request.url) (text "/_ws/vip-rtc") in
      (λ h. ((f h).0, p (f h).1), λ h. g (h.0, q h.1))

  check_legacy :
      (request : Request) (payload grant : SyncTokenPayload)
      → (check_path j search_get secret request false payload ≡ handle_upgrade grant)
        ↔ ((payload ≡ grant) × (validate_legacy_room_path request.url payload ≡ true))
  unfolding check_path
  check_legacy request payload grant =
      chosen (validate_legacy_room_path request.url payload) payload grant unauthorized
        invalid_token_payload

  abbrev Route : Bool → Request → SyncTokenPayload → Type 0
  Route true request grant = get_request_pathname request.url ≡ text "/_ws/vip-rtc"
  Route false request grant = validate_legacy_room_path request.url grant ≡ true

  unfoldable decided : AuthResult → Request → Bool → Decision
  decided (authenticated grant) request b = check_path j search_get secret request b grant
  decided missing_token request b = reject unauthorized missing_auth_token
  decided invalid_token request b = reject unauthorized invalid_auth_token

  checked :
      (b : Bool) (request : Request) (payload grant : SyncTokenPayload)
      → (check_path j search_get secret request b payload ≡ handle_upgrade grant)
        ↔ ((payload ≡ grant) × Route b request payload)
  checked true request payload grant = check_multiplex request payload grant
  checked false request payload grant = check_legacy request payload grant

  decided_iff :
      (r : AuthResult) (b : Bool) (request : Request) (grant : SyncTokenPayload)
      → (decided r request b ≡ handle_upgrade grant)
        ↔ ((r ≡ authenticated grant) × Route b request grant)
  unfolding decided
  decided_iff (authenticated payload) b request grant =
      let (f, g) = checked b request payload grant in
      (
        λ h. let (e, k) = f h in (ap authenticated e, subst (λ p. Route b request p) e k),
        λ h.
            let e : payload ≡ grant = ground (arith, h.0) in
            g (e, subst (λ p. Route b request p) (sym e) h.1),
      )
  decided_iff missing_token b request grant =
      (λ h. absurd (ground (arith, h)), λ h. absurd (ground (arith, h.0)))
  decided_iff invalid_token b request grant =
      (λ h. absurd (ground (arith, h)), λ h. absurd (ground (arith, h.0)))

  -- What the test on the subprotocols, `c`, leaves of the decision where some are asked for.
  routed_some :
      (ps : List Text) (r : AuthResult) (request : Request) (grant : SyncTokenPayload) (b c : Bool)
      → ps ≢ []
      → c ≡ not b
      → ((if c then reject bad_request unsupported_subprotocol else decided r request b)
          ≡ handle_upgrade grant)
        ↔ ((r ≡ authenticated grant)
            × (((b ≡ true) × Route true request grant) ⊎ ((ps ≡ []) × Route false request grant)))
  routed_some ps r request grant true false n e =
      let (f, g) = decided_iff r true request grant in
      (
        λ h. ((f h).0, inl (refl, (f h).1)),
        λ h. elim h.1 [ inl k ↦ g (h.0, k.1) | inr k ↦ absurd (n k.0) ],
      )
  routed_some ps r request grant false true n e = (
    λ h. absurd (ground (arith, h)),
    λ h. elim h.1 [ inl k ↦ absurd (ground (arith, k.0)) | inr k ↦ absurd (n k.0) ],
  )
  routed_some ps r request grant true true n e = absurd (ground (arith, e))
  routed_some ps r request grant false false n e = absurd (ground (arith, e))

  routed :
      (ps : List Text) (r : AuthResult) (request : Request) (grant : SyncTokenPayload)
      → let b = contains multiplex_subprotocol ps in
        ((if not (length ps == 0) && not b
            then reject bad_request unsupported_subprotocol
            else decided r request b)
          ≡ handle_upgrade grant)
        ↔ ((r ≡ authenticated grant)
            × (((b ≡ true) × Route true request grant) ⊎ ((ps ≡ []) × Route false request grant)))
  unfolding contains
  routed [] r request grant =
      let (f, g) = decided_iff r false request grant in
      (
        λ h. ((f h).0, inr (refl, (f h).1)),
        λ h. elim h.1 [ inl k ↦ absurd (ground (arith, k.0)) | inr k ↦ g (h.0, k.1) ],
      )
  routed (q ∷ qs) r request grant =
      routed_some (q ∷ qs) r request grant _ _ (λ e. ground (arith, e)) (ground arith)

  -- A request is handed to the ws package with a grant exactly when it is authenticated as that grant and
  -- asks for the multiplex transport at its path, or for no subprotocol at the path of the granted room.
  pub upgrade_iff :
      (request : Request) (grant : SyncTokenPayload)
      → (upgrade j search_get secret request ≡ handle_upgrade grant) ↔ (
          (is_request_authenticated j search_get request.url secret ≡ authenticated grant)
          × HasRoute request grant)
  unfolding upgrade decided
  upgrade_iff request grant =
      elim (AuthResult-cases (is_request_authenticated j search_get request.url secret)) [
        | inl (p, e) ↦ rw e (routed ps (authenticated p) request grant)
        | inr (inl e) ↦ rw e (routed ps missing_token request grant)
        | inr (inr e) ↦ rw e (routed ps invalid_token request grant)
      ]
    where
      ps : List Text
      ps = requested_protocols request.sec_websocket_protocol
