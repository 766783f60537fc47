-- ===== src/Editor/Ticket/Outcomes.antt =====
-- src/components/submit-upgrade-ticket.ts: when a ticket counts as submitted.
use vip_real_time_collaborat.Base.{
  ℕ, ◌≤◌, ◌≡◌, ◌≢◌, refl, ◌⊎◌, inl, inr, Bool, true, false, Option, none, some, [], ◌∷◌, ◌++◌,
  arith, length, ◌==◌, if◌then◌else◌, Bool-cases,
}
use vip_real_time_collaborat.Base.Text.{Text, text, ◌===◌, ===→eq, ===_refl}
use vip_real_time_collaborat.Editor.Uri.{
  is_low, is_high, IsWellFormed, well_formed_from, well_formed_from-append,
  encode_uri_component-IsWellFormed,
}
use vip_real_time_collaborat.Editor.Ticket.{
  submitted, mailto, ContactAjaxConfig, UpgradeTicketContext, build_subject, build_body,
  mailto_link, Reply, fetch_failed, response, Submission, warn, reported_failure, handler_returned,
  request_failed, fall_back, catch_error, fall_back_in_try, handle_result, handle_response,
  submit_by, ticket_request, submit_upgrade_ticket, is_ok, requested_by, line, nothing,
}

-- The handler took the ticket: a status of success in an answer from 200 to 299.
abbrev pub IsAccepted : Reply → Type 0
IsAccepted fetch_failed = ⊥
IsAccepted (response status none) = ⊥
IsAccepted (response status (some none)) = ⊥
IsAccepted (response status (some (some t))) =
    ((200 ≤ status) × (status ≤ 299)) × (t ≡ text "success")

pub record IsWritable (c : UpgradeTicketContext) : Type 0 where
  pub site_name : IsWellFormed c.site_name
  pub site_url : IsWellFormed c.site_url
  pub user_name : IsWellFormed c.user_name
  pub user_email : IsWellFormed c.user_email

abbrev pub IsSent : Submission → Type 0
IsSent s = (s.outcome ≡ some submitted) × ((s.locations ≡ []) × (length s.requests ≡ 1))

abbrev pub IsMailed : Text → Submission → Type 0
IsMailed link s = (s.outcome ≡ some mailto) × ((s.locations ≡ link ∷ []) × (length s.requests ≤ 1))

join : (s t : Text) → IsWellFormed s → IsWellFormed t → IsWellFormed (s ++ t)
join s t h k = well_formed_from-append false s t h k

either-IsWellFormed :
    (b : Bool) (s t : Text) → IsWellFormed s → IsWellFormed t → IsWellFormed (if b then s else t)
either-IsWellFormed true s t h k = h
either-IsWellFormed false s t h k = k

subject_start : IsWellFormed (text "[VIP RTC] Collaborator limit upgrade request — ")
unfolding well_formed_from is_low is_high
subject_start = refl

build_subject-IsWellFormed :
    (c : UpgradeTicketContext) → IsWritable c → IsWellFormed (build_subject c)
unfolding build_subject
build_subject-IsWellFormed c w =
    join _ _ subject_start
      (either-IsWellFormed (length c.site_name == 0) c.site_url c.site_name w.site_url w.site_name)

record Pieces : Type 0 where
  user : IsWellFormed (text "A user on ")
  reached : IsWellFormed (text " has reached the real-time collaboration limit ")
  wish : IsWellFormed (text "and would like to upgrade.")
  feed : IsWellFormed line
  site : IsWellFormed (text "Site: ")
  requested : IsWellFormed (text "Requested by: ")
  open_bracket : IsWellFormed (text " <")
  close_bracket : IsWellFormed (text ">")

pieces : Pieces
unfolding well_formed_from is_low is_high
pieces = record {
  user = refl;
  reached = refl;
  wish = refl;
  feed = refl;
  site = refl;
  requested = refl;
  open_bracket = refl;
  close_bracket = refl;
}

requested_by-IsWellFormed :
    (c : UpgradeTicketContext) → IsWritable c → IsWellFormed (requested_by c)
requested_by-IsWellFormed c w =
    let named =
      join _ _ (join _ _ (join _ _ w.user_name pieces.open_bracket) w.user_email)
        pieces.close_bracket in
    either-IsWellFormed (length c.user_email == 0) c.user_name _ w.user_name named

build_body-IsWellFormed : (c : UpgradeTicketContext) → IsWritable c → IsWellFormed (build_body c)
unfolding build_body
build_body-IsWellFormed c w =
    let opening =
      join _ _ (join _ _ (join _ _ pieces.user w.site_url) pieces.reached) pieces.wish in
    let site =
      join _ _ (join _ _ (join _ _ (join _ _ opening pieces.feed) pieces.feed) pieces.site)
        w.site_url in
    join _ _ (join _ _ (join _ _ site pieces.feed) pieces.requested) (requested_by-IsWellFormed c w)

mailto_link-IsWritable :
    (c : UpgradeTicketContext) → IsWritable c → (link : Text) × (mailto_link c ≡ some link)
unfolding mailto_link
mailto_link-IsWritable c w =
    let (subject, e) =
      encode_uri_component-IsWellFormed (build_subject c) (build_subject-IsWellFormed c w) in
    let (body, k) =
      encode_uri_component-IsWellFormed (build_body c) (build_body-IsWellFormed c w) in
    rw (e, k) (_, refl)

bool_clash : {b : Bool} → b ≡ true → b ≡ false → ⊥
bool_clash h k = cc

out_of_range :
    (status : ℕ) (body : Option (Option Text))
    → is_ok status ≡ false
    → ¬ IsAccepted (response status body)
out_of_range status none h p = p
out_of_range status (some none) h p = p
out_of_range status (some (some t)) h ((a, b), e) = absurd (ground (arith, h, a, b))

in_range : (status : ℕ) → is_ok status ≡ true → (200 ≤ status) × (status ≤ 299)
in_range status h = ground (arith, h)

-- With a link to leave for, a step of the call ends in one of two ways.
module _ (c : UpgradeTicketContext) (link : Text) (e : mailto_link c ≡ some link) where
  fall_back-IsMailed :
      (s : Submission) → s.locations ≡ [] → length s.requests ≤ 1 → IsMailed link (fall_back c s)
  unfolding fall_back
  fall_back-IsMailed s h k = rw e (refl, (rw h refl, k))

  fall_back_in_try-IsMailed :
      (s : Submission)
      → s.locations ≡ []
      → length s.requests ≤ 1
      → IsMailed link (fall_back_in_try c s)
  unfolding fall_back_in_try
  fall_back_in_try-IsMailed s h k = rw e (refl, (rw h refl, k))

  -- An answer in range of a reply that is accepted, or not.
  handle_result-outcome :
      (status : ℕ) (body : Option (Option Text)) (s : Submission)
      → s.locations ≡ []
      → length s.requests ≡ 1
      → 200 ≤ status
      → status ≤ 299
      → (IsAccepted (response status body) × IsSent (handle_result c body s))
        ⊎ (¬ IsAccepted (response status body) × IsMailed link (handle_result c body s))
  unfolding handle_result catch_error
  handle_result-outcome status none s h k a b =
      inr ((λ p. p), fall_back-IsMailed (warn request_failed s) h (omega (arith, k)))
  handle_result-outcome status (some none) s h k a b =
      inr ((λ p. p), fall_back_in_try-IsMailed (warn reported_failure s) h (omega (arith, k)))
  handle_result-outcome status (some (some t)) s h k a b =
      elim (Bool-cases (t === text "success")) [
        | inl m ↦ inl (((a, b), ===→eq t _ m), rw m (refl, (h, k)))
        | inr m ↦ inr (
          λ p. absurd (bool_clash (rw p.1 (===_refl (text "success"))) m),
          rw m (fall_back_in_try-IsMailed (warn reported_failure s) h (omega (arith, k))),
        )
      ]

  handle_response-outcome :
      (reply : Reply) (s : Submission)
      → s.locations ≡ []
      → length s.requests ≡ 1
      → (IsAccepted reply × IsSent (handle_response c reply s))
        ⊎ (¬ IsAccepted reply × IsMailed link (handle_response c reply s))
  unfolding handle_response catch_error
  handle_response-outcome fetch_failed s h k =
      inr ((λ p. p), fall_back-IsMailed (warn request_failed s) h (omega (arith, k)))
  handle_response-outcome (response status body) s h k = elim (Bool-cases (is_ok status)) [
    | inl m ↦
        rw m (handle_result-outcome status body s h k (in_range status m).0 (in_range status m).1)
    | inr m ↦ inr (
      out_of_range status body m,
      rw m (fall_back_in_try-IsMailed (warn (handler_returned status) s) h (omega (arith, k))),
    )
  ]

  submit_by-outcome :
      (reply : Reply) (o : Option ContactAjaxConfig)
      → ((ajax : ContactAjaxConfig) → o ≡ some ajax → IsWellFormed ajax.nonce)
      → ((o ≢ none) × (IsAccepted reply × IsSent (submit_by c reply o)))
        ⊎ (¬ ((o ≢ none) × IsAccepted reply) × IsMailed link (submit_by c reply o))
  submit_by-outcome reply none w =
      inr ((λ p. p.0 refl), fall_back-IsMailed nothing refl (omega arith))
  submit_by-outcome reply (some ajax) w =
      let (n, k) = encode_uri_component-IsWellFormed ajax.nonce (w ajax refl) in
      elim (handle_response-outcome reply
        (record nothing { requests = ticket_request c ajax n ∷ [] }) refl refl) [
          | inl (a, sent) ↦ inl ((λ p. cc), (a, rw k sent))
          | inr (a, mailed) ↦ inr ((λ p. a p.1), rw k mailed)
        ]

-- For texts without lone surrogates, a ticket always comes to one of two ends. It is submitted, with one
-- request and no navigation, exactly when there is a contact handler that answers from 200 to 299 with the
-- status `success`; else the browser goes to the mailto link of the ticket, once, after at most one request.
pub submit_upgrade_ticket-outcome :
    (c : UpgradeTicketContext) (reply : Reply)
    → IsWritable c
    → ((ajax : ContactAjaxConfig) → c.contact_ajax ≡ some ajax → IsWellFormed ajax.nonce)
    → let s = submit_upgrade_ticket c reply in
      ((c.contact_ajax ≢ none) × (IsAccepted reply × IsSent s))
      ⊎ (¬ ((c.contact_ajax ≢ none) × IsAccepted reply)
          × ((link : Text) × ((mailto_link c ≡ some link) × IsMailed link s)))
unfolding submit_upgrade_ticket
submit_upgrade_ticket-outcome c reply w n =
    let (link, e) = mailto_link-IsWritable c w in
    elim (submit_by-outcome c link e reply c.contact_ajax n) [
      | inl p ↦ inl p
      | inr (a, m) ↦ inr (a, (link, (e, m)))
    ]
