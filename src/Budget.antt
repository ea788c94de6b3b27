-- ===== src/Budget.antt =====
-- limits.go: the cumulative budget that a contract input is charged before it is encoded.
pub mod Cost
mod Tests
use helianthus_modbusreg.Base.{
  ℕ, zero, suc, ◌+◌, ◌-◌, ◌*◌, ◌/◌, Bool, true, false, ◌&&◌, ◌||◌, List, [], ◌∷◌, Result, ok, err,
  ltb, length, if◌then◌else◌, ◌>>=◌, ◌>>◌, refuse_if,
}
use helianthus_modbusreg.Base.Bytes.{ascii, same_bytes}
use helianthus_modbusreg.Ledger.Limits.{max_serialized_contract_bytes}

abbrev pub max_contract_json_depth : ℕ
max_contract_json_depth = 32

-- The values that reflection tells apart. A text is its number of bytes; a struct says whether it is
-- a `DependencyResult`, whose fields `claim` and `owner` are skipped.
mutual
  pub data Value : Type 0 where
    invalid nil_interface nil_pointer time_value bool_value number_value unsupported : Value
    interface_value pointer_value : Value → Value
    text_value : ℕ → Value
    sequence_value : Values → Value
    struct_value : Bool → Fields → Value

  pub data Values : Type 0 where
    no_values : Values
    more_values : Value → Values → Values

  pub data Fields : Type 0 where
    no_fields : Fields
    more_fields : List ℕ → Value → Fields → Fields

pub data BudgetError : Type 0 where
  nesting_exceeded bytes_exceeded text_overflows collection_overflows kind_unsupported : BudgetError

-- `consume`: what remains of the budget.
unfoldable pub consume : ℕ → ℕ → Result BudgetError ℕ
consume remaining amount =
    if ltb remaining amount then err bytes_exceeded else ok (remaining - amount)

-- `^uint64(0)`
abbrev pub largest : ℕ
largest = 0xffff_ffff_ffff_ffff

abbrev pub count_values : Values → ℕ
count_values no_values = 0
count_values (more_values v vs) = suc (count_values vs)

abbrev pub count_fields : Fields → ℕ
count_fields no_fields = 0
count_fields (more_fields n v fs) = suc (count_fields fs)

abbrev pub is_skipped : Bool → List ℕ → Bool
is_skipped dependency name =
    dependency && (same_bytes name (ascii "claim") || same_bytes name (ascii "owner"))

abbrev pub within_depth : ℕ → Result BudgetError ℕ → Result BudgetError ℕ
within_depth depth rest = refuse_if (ltb max_contract_json_depth depth) nesting_exceeded >> rest

-- `consumeAggregateValue`, and its loops over elements and fields.
unfoldable mutual
  unfolding consume

  pub consume_value : Value → ℕ → ℕ → Result BudgetError ℕ
  consume_value invalid budget depth = within_depth depth (consume budget 4)
  consume_value nil_interface budget depth = within_depth depth (consume budget 4)
  consume_value nil_pointer budget depth = within_depth depth (consume budget 4)
  consume_value time_value budget depth = within_depth depth (consume budget 48)
  consume_value bool_value budget depth = within_depth depth (consume budget 8)
  consume_value number_value budget depth = within_depth depth (consume budget 32)
  consume_value unsupported budget depth = within_depth depth (err kind_unsupported)
  consume_value (interface_value v) budget depth =
      within_depth depth (consume_value v budget (depth + 1))
  consume_value (pointer_value v) budget depth =
      within_depth depth (consume budget 8 >>= λ left. consume_value v left (depth + 1))
  consume_value (text_value n) budget depth =
      within_depth depth
        (refuse_if (ltb ((largest - 32) / 6) n) text_overflows >> consume budget (n * 6 + 32))
  consume_value (sequence_value vs) budget depth = within_depth depth (
      refuse_if (ltb ((largest - 16) / 8) (count_values vs)) collection_overflows
      >> (consume budget (count_values vs * 8 + 16) >>= λ left. consume_values vs left (depth + 1)))
  consume_value (struct_value dependency fs) budget depth = within_depth depth (
      consume budget (count_fields fs * 16 + 16) >>= λ left.
      consume_fields fs dependency left (depth + 1))

  pub consume_values : Values → ℕ → ℕ → Result BudgetError ℕ
  consume_values no_values budget depth = ok budget
  consume_values (more_values v vs) budget depth =
      consume_value v budget depth >>= λ left. consume_values vs left depth

  pub consume_fields : Fields → Bool → ℕ → ℕ → Result BudgetError ℕ
  consume_fields no_fields dependency budget depth = ok budget
  consume_fields (more_fields name v fs) dependency budget depth =
      if is_skipped dependency name
      then consume_fields fs dependency budget depth
      else (consume budget (length name * 2 + 8) >>= λ named.
          (consume_value v named depth >>= λ left. consume_fields fs dependency left depth))

-- `preflightAggregate`
unfoldable pub preflight : Values → Result BudgetError ℕ
unfolding consume_value
preflight vs = consume_values vs max_serialized_contract_bytes 1
