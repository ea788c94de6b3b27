-- ===== src/Tesla/Wire/Termination.antt =====
-- The loop over a message has enough rounds.
use helianthus_modbusreg.Base.{
  ℕ, zero, suc, ◌+◌, ◌/◌, ◌%◌, ◌≤◌, ◌≡◌, ◌≢◌, List, [], ◌∷◌, ok, err, length, drop, length-drop,
  Result-cases, inl, inr, arith,
}
use helianthus_modbusreg.Tesla.Varint.{decode_tedapi_varint}
use helianthus_modbusreg.Tesla.Varint.Prefix.{decode_tedapi_varint-width}
use helianthus_modbusreg.Tesla.Wire.{close_group, wire_value, wire_loop, decode_wire_entries, stuck}

close_group-runs : (f : ℕ) (gs : List ℕ) → close_group f gs ≢ err stuck
close_group-runs f [] h = cc
close_group-runs f (g ∷ gs) h = ground arith

-- A value neither runs out of rounds nor lengthens what is left.
wire_value-runs : (f t : ℕ) (rest groups : List ℕ) → wire_value f t rest groups ≢ err stuck
unfolding wire_value
wire_value-runs f t rest groups h = ground (arith, close_group-runs f groups)

wire_value-shorter :
    (f t : ℕ) (rest rest' groups groups' : List ℕ)
    → wire_value f t rest groups ≡ ok (rest', groups')
    → length rest' ≤ length rest
unfolding wire_value
wire_value-shorter f t rest rest' groups groups' h =
    let eight = length-drop 8 rest in
    let four = length-drop 4 rest in
    elim (Result-cases (decode_tedapi_varint rest)) [
      | inl ((v, w), q) ↦
          ground (arith, q, eight, four, length-drop w rest, length-drop v (drop w rest))
      | inr (e, q) ↦ ground (arith, q, eight, four)
    ]

wire_loop-runs :
    (rounds : ℕ) (message : List ℕ) (count : ℕ) (groups : List ℕ)
    → length message ≤ rounds
    → wire_loop rounds message count groups ≢ err stuck
unfolding wire_loop
wire_loop-runs rounds [] count groups few h = ground arith
wire_loop-runs zero (o ∷ os) count groups few h = absurd (omega arith)
wire_loop-runs (suc rounds) (o ∷ os) count groups few h =
    elim (Result-cases (decode_tedapi_varint (o ∷ os))) [
      | inl ((k, w), q) ↦
          let (some_byte, most, ten) = decode_tedapi_varint-width (o ∷ os) k w q in
          elim (Result-cases (wire_value (k / 8) (k % 8) (drop w (o ∷ os)) groups)) [
            | inl ((after, groups'), v) ↦
                let shorter =
                  wire_value-shorter (k / 8) (k % 8) (drop w (o ∷ os)) after groups groups' v in
                let dropped = length-drop w (o ∷ os) in
                let rest =
                  wire_loop-runs rounds after (count + 1) groups'
                    (omega (arith, some_byte, shorter, dropped, few)) in
                ground (arith, q, v, rest, h)
            | inr (e, v) ↦
                let runs = wire_value-runs (k / 8) (k % 8) (drop w (o ∷ os)) groups in
                ground (arith, q, v, runs, h)
          ]
      | inr (e, q) ↦ ground (arith, q, h)
    ]

-- The loop ends of its own on every message: a round for each byte is enough, so that the answer is
-- never the model's mark for a loop that was cut off.
pub decode_wire_entries-runs : (message : List ℕ) → decode_wire_entries message ≢ err stuck
unfolding decode_wire_entries
decode_wire_entries-runs message = wire_loop-runs (length message) message 0 [] (omega arith)
