-- ===== src/Tesla/Matrix.antt =====
-- tesla_fc100_request_matrix.go: the request forms of the FC100 operations.
pub mod Numbers
pub mod Forms
use helianthus_modbusreg.Base.{
  ℕ, Bool, true, false, not, Option, none, some, List, [], Result, ok, err, ◌==◌, if◌then◌else◌,
  ◌>>=◌, ◌>>◌, refuse_if, length,
}
use helianthus_modbusreg.Base.Bytes.{same_bytes}
use helianthus_modbusreg.Tesla.Operation.{
  TeslaFc100Operation, wc_configure_settings, wc_set_provisional, unlisted, OperationError,
  operation_specs, operation_compatibility, map_error, or_refuse, build_request,
}
use helianthus_modbusreg.Tesla.Wire.{TeslaFc100WireEntry, WireError, decode_wire_entries}

pub record TeslaFc100RequestMatrix : Type 0 where
  pub operation : TeslaFc100Operation
  pub request_body : List ℕ
  pub entries : List TeslaFc100WireEntry

pub data MatrixError : Type 0 where
  compatibility_unsupported operation_unsupported has_a_body body_is_empty : MatrixError
  bound : OperationError → MatrixError
  structure : WireError → MatrixError

-- `teslaFC100EmptyRequestOperations`
unfoldable pub empty_request : TeslaFc100Operation → Bool
empty_request wc_configure_settings = false
empty_request wc_set_provisional = false
empty_request unlisted = false
empty_request _ = true

module _ {ℓ} {Request : Type ℓ} (new_request : ℕ → List ℕ → Result OperationError Request) where
  -- `ValidateTeslaFC100RequestMatrix`
  unfoldable pub validate_request_matrix :
      List ℕ → TeslaFc100Operation → List ℕ → Result MatrixError TeslaFc100RequestMatrix
  unfolding build_request operation_specs empty_request
  validate_request_matrix version operation body =
      refuse_if (not (same_bytes version operation_compatibility)) compatibility_unsupported
      >> (or_refuse (operation_specs operation) operation_unsupported >>= λ spec.
          (map_error bound (build_request new_request version operation body) >>= λ request.
          if empty_request operation
          then (refuse_if (not (length body == 0)) has_a_body
              >> ok (record { operation = operation; request_body = []; entries = [] }))
          else (refuse_if (length body == 0) body_is_empty
              >> (map_error structure (decode_wire_entries body) >>= λ entries.
                  ok (record { operation = operation; request_body = body; entries = entries })))))
