-- ===== src/Editor/Modal/History.antt =====
-- src/components/collaboration-limit-modal.tsx: what the modal has done over a whole run.
use vip_real_time_collaborat.Base.{
  zero, suc, ◌≡◌, refl, sym, ap, ◌∙◌, inl, inr, Bool, false, ◌||◌, ◌&&◌, Option, none, some, List,
  [], ◌∷◌, arith, Bool-cases, if◌then◌else◌,
}
use vip_real_time_collaborat.Client.ClosePolicy.{
  ConnectionErrorCode, authentication_failed, connection_expired, connection_limit_exceeded,
  collaborator_limit_exceeded, room_connection_limit_exceeded, unknown_error, is_custom_modal_error,
}
use vip_real_time_collaborat.Client.Provider.{SyncStatus, connecting, connected, disconnected}
use vip_real_time_collaborat.Editor.Ticket.{UpgradeTicketOutcome}
use vip_real_time_collaborat.Editor.Modal.{
  CollaborationLimitModal, error_code, is_upgrade_code, is_upgrade_limit, show_effect,
  telemetry_effect, see_status, handle_upgrade_click, finish_upgrade, can_click, state_after, Event,
  status_seen, upgrade_clicked, ticket_settled, run,
}

-- The statuses of a run, newest first.
abbrev pub statuses : List Event → List SyncStatus
statuses [] = []
statuses (status_seen status ∷ es) = status ∷ statuses es
statuses (upgrade_clicked ∷ es) = statuses es
statuses (ticket_settled outcome ∷ es) = statuses es

-- Some status was the collaborator limit.
abbrev pub met_limit : List SyncStatus → Bool
met_limit [] = false
met_limit (status ∷ l) = is_upgrade_code (error_code (some status)) || met_limit l

abbrev pub newest : List SyncStatus → Option SyncStatus
newest [] = none
newest (status ∷ l) = some status

-- Whether the newest status that is not `connecting` is an error of the modal.
abbrev pub decides : List SyncStatus → Bool
decides [] = false
decides (connecting ∷ l) = decides l
decides (connected ∷ l) = false
decides (disconnected code fields ∷ l) = is_custom_modal_error code

-- What a status makes of whether the modal is shown.
abbrev settled_by : SyncStatus → Bool → Bool
settled_by connecting shown = shown
settled_by connected shown = false
settled_by (disconnected code fields) shown = is_custom_modal_error code

pub record Follows (l : List SyncStatus) (m : CollaborationLimitModal) : Type 0 where
  pub status : m.connection_status ≡ newest l
  pub shown : m.show_modal ≡ decides l
  pub fired : m.telemetry_fired ≡ met_limit l
  pub posted : m.telemetry_posts ≡ (if met_limit l then 1 else 0)

-- What the second effect leaves, by what it met.
abbrev meets : CollaborationLimitModal → Bool
meets m = m.show_modal && is_upgrade_limit m

telemetry_effect_lem :
    (b : Bool) (m : CollaborationLimitModal)
    → m.telemetry_fired ≡ b
    → m.telemetry_posts ≡ (if b then 1 else 0)
    → let next = telemetry_effect m in
      ((next.connection_status ≡ m.connection_status) × (next.show_modal ≡ m.show_modal))
      × ((next.telemetry_fired ≡ (meets m || b))
          × (next.telemetry_posts ≡ (if meets m || b then 1 else 0)))
unfolding telemetry_effect
telemetry_effect_lem b m h k = ground (arith, h, k)

show_effect_lem :
    (st : SyncStatus) (m : CollaborationLimitModal)
    → let next = show_effect st m in
      ((next.connection_status ≡ m.connection_status)
        × (next.show_modal ≡ settled_by st m.show_modal))
      × ((next.telemetry_fired ≡ m.telemetry_fired) × (next.telemetry_posts ≡ m.telemetry_posts))
unfolding show_effect
show_effect_lem connecting m = ((refl, refl), (refl, refl))
show_effect_lem connected m = ((refl, refl), (refl, refl))
show_effect_lem (disconnected code fields) m = ((refl, refl), (refl, refl))

decides_cons :
    (st : SyncStatus) (l : List SyncStatus) → decides (st ∷ l) ≡ settled_by st (decides l)
decides_cons connecting l = refl
decides_cons connected l = refl
decides_cons (disconnected code fields) l = refl

upgrade-custom :
    (code : ConnectionErrorCode)
    → is_upgrade_code (some code) ≡ (is_custom_modal_error code && is_upgrade_code (some code))
upgrade-custom authentication_failed = refl
upgrade-custom connection_expired = refl
upgrade-custom connection_limit_exceeded = refl
upgrade-custom collaborator_limit_exceeded = refl
upgrade-custom room_connection_limit_exceeded = refl
upgrade-custom unknown_error = refl

-- Both runs of the second effect together met the limit exactly if the status is the limit.
meets_twice :
    (st : SyncStatus) (before b : Bool)
    → let upgrade = is_upgrade_code (error_code (some st)) in
      (settled_by st before && upgrade || (before && upgrade || b)) ≡ (upgrade || b)
meets_twice connecting before b = ground arith
meets_twice connected before b = ground arith
meets_twice (disconnected code fields) before b = ground (arith, upgrade-custom code)

see_status-Follows :
    (st : SyncStatus) (l : List SyncStatus) (m : CollaborationLimitModal)
    → Follows l m
    → Follows (st ∷ l) (see_status st m)
unfolding see_status
see_status-Follows st l m f =
    let m0 : CollaborationLimitModal = record m { connection_status = some st } in
    let m1 : CollaborationLimitModal = telemetry_effect m0 in
    let m2 : CollaborationLimitModal = show_effect st m1 in
    let first = telemetry_effect_lem (met_limit l) m0 f.fired f.posted in
    let second = show_effect_lem st m1 in
    let third =
      telemetry_effect_lem (meets m0 || met_limit l) m2 (second.1.0 ∙ first.1.0)
        (second.1.1 ∙ first.1.1) in
    let met2 : meets m2 ≡ (settled_by st m.show_modal && is_upgrade_code (error_code (some st))) =
      rw (second.0.1, second.0.0, first.0.0, first.0.1) refl in
    let both : (meets m2 || (meets m0 || met_limit l)) ≡ met_limit (st ∷ l) =
      rw met2 (meets_twice st m.show_modal (met_limit l)) in
    let shown = ap (settled_by st) (first.0.1 ∙ f.shown) ∙ sym (decides_cons st l) in
    record {
      status = third.0.0 ∙ (second.0.0 ∙ first.0.0);
      shown = third.0.1 ∙ (second.0.1 ∙ shown);
      fired = third.1.0 ∙ both;
      posted = third.1.1 ∙ ap (λ b. if b then 1 else 0) both;
    }

handle_upgrade_click-Follows :
    (l : List SyncStatus) (m : CollaborationLimitModal)
    → Follows l m
    → Follows l (handle_upgrade_click m)
unfolding handle_upgrade_click
handle_upgrade_click-Follows l m f = elim (Bool-cases (can_click m)) [
  | inl e ↦
      simp e (record { status = f.status; shown = f.shown; fired = f.fired; posted = f.posted })
  | inr e ↦ simp e f
]

finish_upgrade-Follows :
    (outcome : UpgradeTicketOutcome) (l : List SyncStatus) (m : CollaborationLimitModal)
    → Follows l m
    → Follows l (finish_upgrade outcome m)
unfolding finish_upgrade
finish_upgrade-Follows outcome l m f =
    elim m.in_flight
      as (λ n. Follows l (elim n [
        | zero ↦ m
        | suc k ↦ record m { in_flight = k; upgrade_state = state_after outcome }
      ])) [
        | zero ↦ f
        | suc k ↦ record { status = f.status; shown = f.shown; fired = f.fired; posted = f.posted }
      ]

pub run-Follows : (es : List Event) → Follows (statuses es) (run es)
unfolding run
run-Follows [] = record { status = refl; shown = refl; fired = refl; posted = refl }
run-Follows (status_seen status ∷ es) =
    see_status-Follows status (statuses es) (run es) (run-Follows es)
run-Follows (upgrade_clicked ∷ es) =
    handle_upgrade_click-Follows (statuses es) (run es) (run-Follows es)
run-Follows (ticket_settled outcome ∷ es) =
    finish_upgrade-Follows outcome (statuses es) (run es) (run-Follows es)

-- Whatever the editor reports and the user clicks, the telemetry has been posted once if some status was
-- the collaborator limit, and not at all otherwise.
pub telemetry_posts-run :
    (es : List Event) → (run es).telemetry_posts ≡ (if met_limit (statuses es) then 1 else 0)
telemetry_posts-run es = (run-Follows es).posted
