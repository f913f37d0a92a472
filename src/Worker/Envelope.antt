-- ===== src/Worker/Envelope.antt =====
-- The message that travels to a worker (natsq/envelope.go), and the reading of it.
use urth.Prelude.{ℕ, String, Bool, true, false, Option, none, some, ◌==◌, ◌=ₛ◌, if◌then◌else◌}
use urth.Types.{Labels}

abbrev pub dispatch_envelope_version : ℕ
dispatch_envelope_version = 1

pub record DispatchEnvelope : Type 0 where
  pub schema_version : ℕ
  pub result_uid : String
  pub result_version : ℕ
  pub scenario_name : String
  pub runner_uid : String
  pub dispatch_id : String
  pub trace : Labels

pub data EnvelopeError : Type 0 where
  unsupported_schema no_result_uid no_runner_uid no_dispatch_id undecodable : EnvelopeError

-- `DispatchEnvelope.Validate`.
unfoldable pub validate_envelope : DispatchEnvelope → Option EnvelopeError
validate_envelope e =
    if e.schema_version == dispatch_envelope_version
    then (if e.result_uid =ₛ ""
        then some no_result_uid
        else (if e.runner_uid =ₛ ""
            then some no_runner_uid
            else (if e.dispatch_id =ₛ "" then some no_dispatch_id else none)))
    else some unsupported_schema

-- `UnmarshalEnvelope`, over what `json.Unmarshal` answers: the envelope, as far as it was filled,
-- and whether the text was read to its end.
unfoldable pub unmarshal_envelope :
    DispatchEnvelope × Bool → DispatchEnvelope × Option EnvelopeError
unmarshal_envelope (e, true) = (e, validate_envelope e)
unmarshal_envelope (e, false) = (e, some undecodable)
