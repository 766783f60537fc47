-- ===== src/Editor/Ticket/Examples.antt =====
-- src/components/submit-upgrade-ticket.ts on concrete tickets.
use mathlib.Core.Option.{some-injective}
use vip_real_time_collaborat.Base.{◌≡◌, ◌≢◌, ◌⊎◌, refl, sym, ap, none, some, [], ◌∷◌, ◌++◌}
use vip_real_time_collaborat.Base.Text.{Text, text}
use vip_real_time_collaborat.Editor.Uri.{
  encode_uri_component, form_encode, well_formed_from, IsWellFormed, is_low, is_high,
}
use vip_real_time_collaborat.Editor.Ticket.{
  UpgradeTicketContext, ContactAjaxConfig, Reply, response, mailto, handler_returned, mailto_link,
  submit_upgrade_ticket,
}
use vip_real_time_collaborat.Editor.Ticket.Outcomes.{
  IsAccepted, IsWritable, IsSent, IsMailed, submit_upgrade_ticket-outcome,
}

-- A smile beyond the Basic Multilingual Plane is one character of four bytes.
encoded :
    (encode_uri_component (text "a b—&" ++ 0xd83d ∷ 0xde00 ∷ [])
      ≡ some (text "a%20b%E2%80%94%26%F0%9F%98%80"))
    × ((encode_uri_component (0xd83d ∷ text "a") ≡ none)
        × (form_encode (text "a b*" ++ 0xd83d ∷ []) ≡ text "a+b*%EF%BF%BD"))
unfolding encode_uri_component form_encode is_low is_high
encoded = (refl, (refl, refl))

abbrev handler : ContactAjaxConfig
handler = record { url = text "/wp-admin/admin-ajax.php"; nonce = text "1f&" }

abbrev ticket : UpgradeTicketContext
ticket = record {
  site_name = [];
  site_url = text "https://a.b";
  user_name = text "Ann";
  user_email = text "ann@a.b";
  contact_ajax = some handler;
  support_email = text "help@a.b";
}

abbrev refused : Reply
refused = response 503 none

ticket-IsWritable : IsWritable ticket
unfolding well_formed_from is_low is_high
ticket-IsWritable = record {
  site_name = refl;
  site_url = refl;
  user_name = refl;
  user_email = refl;
}

refused_runs :
    ((submit_upgrade_ticket ticket refused).outcome ≡ some mailto)
    × ((submit_upgrade_ticket ticket refused).warnings ≡ handler_returned 503 ∷ [])
unfolding submit_upgrade_ticket is_low is_high
refused_runs = (refl, refl)

handler-IsWellFormed : IsWellFormed handler.nonce
unfolding well_formed_from is_low is_high
handler-IsWellFormed = refl

nonce-IsWellFormed : (ajax : ContactAjaxConfig) → some handler ≡ some ajax → IsWellFormed ajax.nonce
nonce-IsWellFormed ajax e =
    rw (sym (ap ContactAjaxConfig.nonce (some-injective handler ajax e))) handler-IsWellFormed

submit_upgrade_ticket-outcome_example :
    let s = submit_upgrade_ticket ticket refused in
    ((ticket.contact_ajax ≢ none) × (IsAccepted refused × IsSent s))
    ⊎ (¬ ((ticket.contact_ajax ≢ none) × IsAccepted refused)
        × ((link : Text) × ((mailto_link ticket ≡ some link) × IsMailed link s)))
submit_upgrade_ticket-outcome_example =
    submit_upgrade_ticket-outcome ticket refused ticket-IsWritable nonce-IsWellFormed
