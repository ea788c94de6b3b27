-- ===== src/Budget/Tests.antt =====
-- A concrete input: a list of two texts, and a result of a dependency with a skipped field.
use helianthus_modbusreg.Base.{◌+◌, ◌≡◌, refl, true, ok}
use helianthus_modbusreg.Base.Bytes.{ascii}
use helianthus_modbusreg.Budget.{
  Value, Values, text_value, number_value, sequence_value, struct_value, no_values, more_values,
  no_fields, more_fields, preflight,
}
use helianthus_modbusreg.Budget.Cost.{cost_values, preflight-cost}

abbrev texts : Value
texts = sequence_value (more_values (text_value 5) (more_values (text_value 0) no_values))

abbrev result : Value
result =
    struct_value true
      (more_fields (ascii "claim") texts (more_fields (ascii "id") number_value no_fields))

abbrev input : Values
input = more_values texts (more_values result no_values)

input-run : preflight input ≡ ok 4194086
unfolding preflight
input-run = refl

preflight-cost_example : 4194086 + cost_values input ≡ 4194304
preflight-cost_example = preflight-cost input 4194086 input-run
