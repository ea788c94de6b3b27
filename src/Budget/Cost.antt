-- ===== src/Budget/Cost.antt =====
-- What a charged value costs, and that the budget is charged exactly that.
use helianthus_modbusreg.Base.{
  ℕ, ◌+◌, ◌*◌, ◌≤◌, ◌≡◌, refl, Bool, Result, ok, err, length, if◌then◌else◌, arith, Bool-cases, inl,
  inr, ◌>>=◌,
}
use helianthus_modbusreg.Budget.{
  Value, Values, Fields, invalid, nil_interface, nil_pointer, time_value, bool_value, number_value,
  unsupported, interface_value, pointer_value, text_value, sequence_value, struct_value, no_values,
  more_values, no_fields, more_fields, BudgetError, consume, count_values, count_fields, is_skipped,
  within_depth, consume_value, consume_values, consume_fields, preflight,
}

-- The bytes that a value is charged.
abbrev mutual
  pub cost : Value → ℕ
  cost invalid = 4
  cost nil_interface = 4
  cost nil_pointer = 4
  cost time_value = 48
  cost bool_value = 8
  cost number_value = 32
  cost unsupported = 0
  cost (interface_value v) = cost v
  cost (pointer_value v) = 8 + cost v
  cost (text_value n) = n * 6 + 32
  cost (sequence_value vs) = count_values vs * 8 + 16 + cost_values vs
  cost (struct_value dependency fs) = count_fields fs * 16 + 16 + cost_fields fs dependency

  pub cost_values : Values → ℕ
  cost_values no_values = 0
  cost_values (more_values v vs) = cost v + cost_values vs

  pub cost_fields : Fields → Bool → ℕ
  cost_fields no_fields dependency = 0
  cost_fields (more_fields name v fs) dependency =
      (if is_skipped dependency name then 0 else (length name * 2 + 8 + cost v))
      + cost_fields fs dependency

consume-cost : (b n r : ℕ) → consume b n ≡ ok r → b ≡ r + n
unfolding consume
consume-cost b n r h = ground arith

within_depth-ok :
    (d r : ℕ) (m : Result BudgetError ℕ) → within_depth d m ≡ ok r → (m ≡ ok r) × (d ≤ 32)
within_depth-ok d r m h = ground arith

bind_ok :
    (m : Result BudgetError ℕ) (f : ℕ → Result BudgetError ℕ) (r : ℕ)
    → (m >>= f) ≡ ok r
    → (left : ℕ) × (m ≡ ok left) × (f left ≡ ok r)
bind_ok (ok left) f r h = (left, refl, h)
bind_ok (err e) f r h = cc

mutual
  unfolding consume_value

  value-cost : (v : Value) (b d r : ℕ) → consume_value v b d ≡ ok r → b ≡ r + cost v
  value-cost invalid b d r h = consume-cost b 4 r ((within_depth-ok d r (consume b 4) h).0)
  value-cost nil_interface b d r h = consume-cost b 4 r ((within_depth-ok d r (consume b 4) h).0)
  value-cost nil_pointer b d r h = consume-cost b 4 r ((within_depth-ok d r (consume b 4) h).0)
  value-cost time_value b d r h = consume-cost b 48 r ((within_depth-ok d r (consume b 48) h).0)
  value-cost bool_value b d r h = consume-cost b 8 r ((within_depth-ok d r (consume b 8) h).0)
  value-cost number_value b d r h = consume-cost b 32 r ((within_depth-ok d r (consume b 32) h).0)
  value-cost unsupported b d r h = absurd (ground arith)
  value-cost (interface_value v) b d r h = value-cost v b (d + 1) r ((within_depth-ok d r _ h).0)
  value-cost (pointer_value v) b d r h =
      let (left, paid, rest) =
        bind_ok (consume b 8) (λ left. consume_value v left (d + 1)) r (ground arith) in
      omega (arith, consume-cost b 8 left paid, value-cost v left (d + 1) r rest)
  value-cost (text_value n) b d r h = consume-cost b (n * 6 + 32) r (ground arith)
  value-cost (sequence_value vs) b d r h =
      let (left, paid, rest) =
        bind_ok (consume b (count_values vs * 8 + 16)) (λ left. consume_values vs left (d + 1)) r
          (ground arith) in
      omega (
        arith,
        consume-cost b (count_values vs * 8 + 16) left paid,
        values-cost vs left (d + 1) r rest,
      )
  value-cost (struct_value dependency fs) b d r h =
      let (left, paid, rest) =
        bind_ok (consume b (count_fields fs * 16 + 16))
          (λ left. consume_fields fs dependency left (d + 1)) r (ground arith) in
      omega (
        arith,
        consume-cost b (count_fields fs * 16 + 16) left paid,
        fields-cost fs dependency left (d + 1) r rest,
      )

  values-cost : (vs : Values) (b d r : ℕ) → consume_values vs b d ≡ ok r → b ≡ r + cost_values vs
  values-cost no_values b d r h = ground arith
  values-cost (more_values v vs) b d r h =
      let (left, paid, rest) =
        bind_ok (consume_value v b d) (λ left. consume_values vs left d) r h in
      omega (arith, value-cost v b d left paid, values-cost vs left d r rest)

  fields-cost :
      (fs : Fields) (dependency : Bool) (b d r : ℕ)
      → consume_fields fs dependency b d ≡ ok r
      → b ≡ r + cost_fields fs dependency
  fields-cost no_fields dependency b d r h = ground arith
  fields-cost (more_fields name v fs) dependency b d r h =
      elim (Bool-cases (is_skipped dependency name)) [
        | inl q ↦
            let rest = fields-cost fs dependency b d r (ground (arith, h, q)) in
            ground (arith, rest, q)
        | inr q ↦
            let (named, paid, more) =
              bind_ok (consume b (length name * 2 + 8))
                (λ n. consume_value v n d >>= λ left. consume_fields fs dependency left d) r
                (ground (arith, h, q)) in
            let (left, paid_value, rest) = bind_ok _ _ r more in
            let name_cost = consume-cost b (length name * 2 + 8) named paid in
            let value_cost = value-cost v named d left paid_value in
            let rest_cost = fields-cost fs dependency left d r rest in
            ground (arith, name_cost, value_cost, rest_cost, q)
      ]

-- An input that is accepted is charged exactly its cost, so that is within the 4 MiB of a contract.
pub preflight-cost :
    (vs : Values) (left : ℕ) → preflight vs ≡ ok left → left + cost_values vs ≡ 4194304
unfolding preflight
preflight-cost vs left h = omega (arith, values-cost vs 4194304 1 left h)
