-- ===== src/Editor/Ticket.antt =====
-- src/components/submit-upgrade-ticket.ts: the request for a higher limit, and its mailto fallback.
pub mod Outcomes
mod Examples
use vip_real_time_collaborat.Base.{
  ℕ, Bool, true, false, ◌&&◌, Option, none, some, List, [], ◌∷◌, ◌++◌, leb, length, ◌==◌,
  if◌then◌else◌,
}
use vip_real_time_collaborat.Base.Text.{Text, text, ◌===◌}
use vip_real_time_collaborat.Editor.Uri.{encode_uri_component, form_encode}

pub data UpgradeTicketOutcome : Type 0 where
  submitted mailto : UpgradeTicketOutcome

pub record ContactAjaxConfig : Type 0 where
  pub url : Text
  pub nonce : Text

pub record UpgradeTicketContext : Type 0 where
  pub site_name : Text
  pub site_url : Text
  pub user_name : Text
  pub user_email : Text
  pub contact_ajax : Option ContactAjaxConfig
  pub support_email : Text

-- `a || b` on strings.
abbrev pub or_else : Text → Text → Text
or_else a b = if length a == 0 then b else a

unfoldable pub build_subject : UpgradeTicketContext → Text
build_subject c =
    text "[VIP RTC] Collaborator limit upgrade request — " ++ or_else c.site_name c.site_url

abbrev pub requested_by : UpgradeTicketContext → Text
requested_by c =
    if length c.user_email == 0
    then c.user_name
    else c.user_name ++ text " <" ++ c.user_email ++ text ">"

abbrev pub line : Text
line = 10 ∷ []

-- The lines, joined by a line feed.
unfoldable pub build_body : UpgradeTicketContext → Text
build_body c =
    text "A user on "
    ++ c.site_url
    ++ text " has reached the real-time collaboration limit "
    ++ text "and would like to upgrade."
    ++ line
    ++ line
    ++ text "Site: "
    ++ c.site_url
    ++ line
    ++ text "Requested by: "
    ++ requested_by c

abbrev pub link_of : Text → Option Text → Option Text → Option Text
link_of support none body = none
link_of support (some subject) none = none
link_of support (some subject) (some body) =
    some (text "mailto:" ++ support ++ text "?subject=" ++ subject ++ text "&body=" ++ body)

-- The link of openMailtoFallback, unless encodeURIComponent throws.
unfoldable pub mailto_link : UpgradeTicketContext → Option Text
unfolding encode_uri_component build_subject build_body
mailto_link c =
    link_of c.support_email (encode_uri_component (build_subject c))
      (encode_uri_component (build_body c))

-- What the call of fetch comes to. The body is `none` where response.json() rejects or gives null, and
-- carries the status of the object otherwise, if that is a string.
pub data Reply : Type 0 where
  fetch_failed : Reply
  response : ℕ → Option (Option Text) → Reply

pub record Request : Type 0 where
  pub url : Text
  pub body : Text

pub data Warning : Type 0 where
  handler_returned : ℕ → Warning
  reported_failure request_failed : Warning

-- The outcome is `none` where the promise rejects. The lists have the newest first.
pub record Submission : Type 0 where
  pub outcome : Option UpgradeTicketOutcome
  pub requests : List Request
  pub locations : List Text
  pub warnings : List Warning

abbrev pub nothing : Submission
nothing = record { outcome = none; requests = []; locations = []; warnings = [] }

abbrev pub warn : Warning → Submission → Submission
warn w s = record s { warnings = w ∷ s.warnings }

-- openMailtoFallback and the return after it.
abbrev pub leave_for : Option Text → Submission → Submission
leave_for none s = record s { outcome = none }
leave_for (some link) s = record s { outcome = some mailto; locations = link ∷ s.locations }

unfoldable pub fall_back : UpgradeTicketContext → Submission → Submission
unfolding mailto_link
fall_back c s = leave_for (mailto_link c) s

-- The catch clause, which tries the fallback again.
unfoldable pub catch_error : UpgradeTicketContext → Submission → Submission
unfolding fall_back
catch_error c s = fall_back c (warn request_failed s)

-- The fallback within the try block: what it throws is caught.
abbrev leave_or_catch : UpgradeTicketContext → Option Text → Submission → Submission
leave_or_catch c none s = catch_error c s
leave_or_catch c (some link) s = leave_for (some link) s

unfoldable pub fall_back_in_try : UpgradeTicketContext → Submission → Submission
unfolding mailto_link catch_error
fall_back_in_try c s = leave_or_catch c (mailto_link c) s

abbrev pub is_success : Option Text → Bool
is_success none = false
is_success (some status) = status === text "success"

abbrev pub is_ok : ℕ → Bool
is_ok status = leb 200 status && leb status 299

unfoldable pub handle_result : UpgradeTicketContext → Option (Option Text) → Submission → Submission
unfolding fall_back_in_try catch_error ◌===◌
handle_result c none s = catch_error c s
handle_result c (some status) s =
    if is_success status
    then record s { outcome = some submitted }
    else fall_back_in_try c (warn reported_failure s)

unfoldable pub handle_response : UpgradeTicketContext → Reply → Submission → Submission
unfolding handle_result fall_back_in_try catch_error
handle_response c fetch_failed s = catch_error c s
handle_response c (response status body) s =
    if is_ok status
    then handle_result c body s
    else fall_back_in_try c (warn (handler_returned status) s)

-- `&key=value` of the form.
abbrev field : Text → Text → Text
field key value = text "&" ++ key ++ text "=" ++ form_encode value

unfoldable pub ticket_params : UpgradeTicketContext → Text
unfolding form_encode build_subject build_body
ticket_params c =
    text "action=vip_contact"
    ++ field (text "name") c.user_name
    ++ field (text "email") c.user_email
    ++ field (text "subject") (build_subject c)
    ++ field (text "body") (build_body c)
    ++ text "&priority=Medium"

unfoldable pub ticket_request : UpgradeTicketContext → ContactAjaxConfig → Text → Request
unfolding ticket_params
ticket_request c ajax nonce = record {
  url = ajax.url ++ text "?action=vip_contact&_wpnonce=" ++ nonce;
  body = ticket_params c;
}

-- From the call of fetch on; the nonce is encoded outside the try block.
abbrev pub send_ticket : UpgradeTicketContext → Reply → ContactAjaxConfig → Option Text → Submission
send_ticket c reply ajax none = nothing
send_ticket c reply ajax (some nonce) =
    handle_response c reply (record nothing { requests = ticket_request c ajax nonce ∷ [] })

abbrev pub submit_by : UpgradeTicketContext → Reply → Option ContactAjaxConfig → Submission
submit_by c reply none = fall_back c nothing
submit_by c reply (some ajax) = send_ticket c reply ajax (encode_uri_component ajax.nonce)

unfoldable pub submit_upgrade_ticket : UpgradeTicketContext → Reply → Submission
unfolding fall_back handle_response encode_uri_component ticket_request
submit_upgrade_ticket c reply = submit_by c reply c.contact_ajax
