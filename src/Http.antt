-- ===== src/Http.antt =====
-- A request as the views read it, and the replies that they give. The clock, the fresh UUID and
-- whether the message broker takes an e-mail job come with the request: other code decides them.
use mapapi.Prelude.{ℕ, ◌/◌, Bool, Option}
use mapapi.Models.{User}

pub record Request : Type 0 where
  -- `none` is AnonymousUser
  pub user : Option User
  -- the method is one of SAFE_METHODS
  pub safe : Bool
  -- `view.kwargs['incident_id']`, or else `view.kwargs['pk']`
  pub incident_id : Option ℕ
  -- `timezone.now()`, in seconds
  pub now : ℕ
  -- the value of the next `uuid4()`
  pub fresh : ℕ
  -- `send_email.delay` queues the job and does not raise
  pub broker_up : Bool

-- `timezone.now().date()`
abbrev pub today : Request → ℕ
today rq = rq.now / 86400

-- Why a request is refused; `status` has the code of the response.
pub data Error : Type 0 where
  permission_denied not_found not_leader other_organisation : Error
  closed wrong_etat mode_required role_required already_taken internal_mode duplicate : Error
  leader_exists dates_required open_tasks motif_required proof_required reason_required : Error
  already_accepted expired leader_role past_end_date no_organisation already_assigned : Error
  already_answered invalid_action last_admin bureau_limits empty_list : Error
  bad_dates not_failed unknown_incident unknown_organisation server_error : Error
  fields_required invalid_role unauthorized no_pin bad_pin weak_pin unknown_user too_far : Error

pub data Reply : Type 0 where
  ok created : Reply
  refused : Error → Reply

abbrev pub is_refused : Reply → Bool
is_refused (refused _) = Bool.true
is_refused _ = Bool.false

abbrev pub status : Reply → ℕ
status ok = 200
status created = 201
status (refused permission_denied) = 403
status (refused not_found) = 404
status (refused not_leader) = 403
status (refused other_organisation) = 403
status (refused bureau_limits) = 403
status (refused unauthorized) = 401
status (refused server_error) = 500
status (refused _) = 400
