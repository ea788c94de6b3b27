-- ===== src/View.antt =====
-- observation.go: `LogicalViewRecord`, one successful logical read with its transport provenance.
-- A string is a list of bytes; function codes, tables and transport families, which the Modbus
-- runtime defines and this code only compares, are numbers.
use helianthus_modbusreg.Base.{ℕ, List}

pub record LogicalViewRecord : Type 0 where
  pub logical_view_id : ℕ
  pub wire_response_id : ℕ
  pub physical_request_id : ℕ
  pub endpoint : List ℕ
  pub connection_id : ℕ
  pub transport : ℕ
  pub transport_generation : ℕ
  pub unit_id : ℕ
  pub requested_function : ℕ
  pub received_function : ℕ
  pub table : ℕ
  pub physical_offset : ℕ
  pub physical_word_count : ℕ
  pub authorization_scope : List ℕ
  pub poll_generation : ℕ
  pub deadline_identity : ℕ
  pub logical_offset : ℕ
  pub logical_word_count : ℕ
  pub slice_offset : ℕ
  pub slice_word_count : ℕ
  pub words : List ℕ
  pub wire_response_bytes : List ℕ

-- Modbus function code 3.
abbrev pub function_read_holding_registers : ℕ
function_read_holding_registers = 3
