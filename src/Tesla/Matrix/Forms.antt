-- ===== src/Tesla/Matrix/Forms.antt =====
-- The two request forms.
use helianthus_modbusreg.Base.{
  ℕ, ◌≤◌, ◌≡◌, ◌↔◌, inl, inr, refl, sym, ap, subst, ◌==◌, ◌%◌, ◌∷◌, true, some, Option-cases,
  Result-cases, Bool-cases, List, [], Result, ok, length, arith,
}
use helianthus_modbusreg.Base.Bytes.{ascii, same_bytes, same_bytes_eq}
use helianthus_modbusreg.Tesla.Field.{append_field}
use helianthus_modbusreg.Tesla.Operation.{
  TeslaFc100Operation, OperationError, OperationSpec, operation_specs, operation_message,
  operation_compatibility, build_request,
}
use helianthus_modbusreg.Tesla.Wire.{TeslaFc100WireEntry, decode_wire_entries}
use helianthus_modbusreg.Tesla.Wire.Nesting.{WellNested, decode_wire_entries-WellNested}
use helianthus_modbusreg.Tesla.Matrix.{
  TeslaFc100RequestMatrix, empty_request, validate_request_matrix,
}
use helianthus_modbusreg.Tesla.Matrix.Numbers.{
  Asks, Writes, Asks-numbers, Writes-numbers, Listed, Listed-Asks, Listed-Writes,
}

abbrev pub matrix :
    TeslaFc100Operation → List ℕ → List TeslaFc100WireEntry → TeslaFc100RequestMatrix
matrix operation body entries = record {
  operation = operation;
  request_body = body;
  entries = entries;
}

no_bytes : (body : List ℕ) → (length body == 0) ≡ true → body ≡ []
no_bytes [] h = refl
no_bytes (b ∷ bs) h = absurd (ground arith)

module _ {ℓ} {Request : Type ℓ} (new_request : ℕ → List ℕ → Result OperationError Request) where
  -- The body as the request field inside the family field has at most 251 bytes, and the Modbus
  -- library constructs the request of function 100 that carries these behind their number.
  pub record IsSendable (family tag : ℕ) (body : List ℕ) : Type ℓ where
    pub few : length (append_field family (append_field tag body)) ≤ 251
    pub request : Request
    pub constructed :
        new_request 100 (
          length (append_field family (append_field tag body))
          ∷ append_field family (append_field tag body))
        ≡ ok request

  -- The forms of an accepted request: no body where the operation asks, and where it writes a body
  -- that is a nested message and is kept whole.
  pub data IsForm (operation : TeslaFc100Operation) (body : List ℕ) (m : TeslaFc100RequestMatrix)
      : Type ℓ where
    asking :
        (family tag : ℕ)
        → Asks operation family tag
        → IsSendable family tag body
        → body ≡ []
        → m ≡ matrix operation [] []
        → IsForm operation body m
    writing :
        (family tag : ℕ) (entries : List TeslaFc100WireEntry)
        → Writes operation family tag
        → IsSendable family tag body
        → 1 ≤ length body
        → decode_wire_entries body ≡ ok entries
        → WellNested entries
        → m ≡ matrix operation body entries
        → IsForm operation body m

  built-IsSendable :
      (version : List ℕ) (operation : TeslaFc100Operation) (body : List ℕ) (s : OperationSpec)
      (r : Request)
      → operation_specs operation ≡ some s
      → build_request new_request version operation body ≡ ok r
      → (version ≡ ascii "wc3_24_44_3") × IsSendable s.family s.request_tag body
  unfolding build_request operation_message
  built-IsSendable version operation body s r q b =
      let message = append_field s.family (append_field s.request_tag body) in
      let same : same_bytes version operation_compatibility ≡ true = ground (arith, b) in
      let short : length message ≤ 251 = ground (arith, q, b) in
      let made : new_request 100 ((length message % 256) ∷ message) ≡ ok r = ground (arith, q, b) in
      let one_byte : length message % 256 ≡ length message = omega arith in
      (
        same_bytes_eq version operation_compatibility same,
        record {
          few = short;
          request = r;
          constructed = subst (λ n. new_request 100 (n ∷ message) ≡ ok r) one_byte made;
        },
      )

  built-Listed :
      (operation : TeslaFc100Operation) (body : List ℕ) (family tag : ℕ)
      → Listed operation family tag
      → (a : IsSendable family tag body)
      → build_request new_request (ascii "wc3_24_44_3") operation body ≡ ok a.request
  unfolding build_request operation_message
  built-Listed operation body family tag (n, q) a =
      let message = append_field family (append_field tag body) in
      let one_byte : length message ≡ length message % 256 = omega (arith, a.few) in
      let made : new_request 100 ((length message % 256) ∷ message) ≡ ok a.request =
        subst (λ k. new_request 100 (k ∷ message) ≡ ok a.request) one_byte a.constructed in
      ground (arith, q, made, a.few)

  validate_request_matrix-accepted :
      (version : List ℕ) (operation : TeslaFc100Operation) (body : List ℕ)
      (m : TeslaFc100RequestMatrix)
      → validate_request_matrix new_request version operation body ≡ ok m
      → (version ≡ ascii "wc3_24_44_3") × IsForm operation body m
  unfolding validate_request_matrix
  validate_request_matrix-accepted version operation body m h =
      elim (Option-cases (operation_specs operation)) [
        | inl q ↦ absurd (ground (arith, q, h))
        | inr (s, q) ↦ elim (Result-cases (build_request new_request version operation body)) [
          | inr (e, b) ↦ absurd (ground (arith, q, b, h))
          | inl (r, b) ↦
              let (right, sent) = built-IsSendable version operation body s r q b in
              elim (Bool-cases (empty_request operation)) [
                | inl without ↦
                    let made : matrix operation [] [] ≡ m = ground (arith, q, b, without, h) in
                    let none_sent : (length body == 0) ≡ true = ground (arith, q, b, without, h) in
                    (
                      right,
                      asking s.family s.request_tag (Asks-numbers operation s q without) sent
                          (no_bytes body none_sent) (sym made),
                    )
                | inr with_body ↦ elim (Result-cases (decode_wire_entries body)) [
                  | inl (es, d) ↦
                      let made : matrix operation body es ≡ m =
                        ground (arith, q, b, with_body, d, h) in
                      let some_sent : 1 ≤ length body = ground (arith, q, b, with_body, d, h) in
                      (
                        right,
                        writing s.family s.request_tag es (Writes-numbers operation s q with_body)
                            sent some_sent d (decode_wire_entries-WellNested body es d).0
                            (sym made),
                      )
                  | inr (e, d) ↦ absurd (ground (arith, q, b, with_body, d, h))
                ]
              ]
        ]
      ]

  IsForm-accepted :
      (operation : TeslaFc100Operation) (body : List ℕ) (m : TeslaFc100RequestMatrix)
      → IsForm operation body m
      → validate_request_matrix new_request (ascii "wc3_24_44_3") operation body ≡ ok m
  unfolding validate_request_matrix
  IsForm-accepted operation body m (asking family tag a sent e h) =
      let (without, (n, q)) = Listed-Asks a in
      let b = built-Listed operation body family tag (n, q) sent in
      let no_length = ap length e in ground (arith, q, b, without, no_length, h)
  IsForm-accepted operation body m (writing family tag es w sent some_sent d nested h) =
      let (with_body, (n, q)) = Listed-Writes w in
      let b = built-Listed operation body family tag (n, q) sent in
      ground (arith, q, b, with_body, some_sent, d, h)

  -- A request is accepted exactly under the version `wc3_24_44_3`, where its message of at most 251
  -- bytes is one that the Modbus library constructs, and in its operation's form: the six operations
  -- that ask are sent without a body, and the two that write with a body of one byte at least, a
  -- message whose groups nest, which is kept whole with the entries that it decodes to.
  pub validate_request_matrix_iff :
      (version : List ℕ) (operation : TeslaFc100Operation) (body : List ℕ)
      (m : TeslaFc100RequestMatrix)
      → (validate_request_matrix new_request version operation body ≡ ok m)
        ↔ ((version ≡ ascii "wc3_24_44_3") × IsForm operation body m)
  validate_request_matrix_iff version operation body m = (
    validate_request_matrix-accepted version operation body m,
    λ (right, form).
        subst (λ v. validate_request_matrix new_request v operation body ≡ ok m) (sym right)
          (IsForm-accepted operation body m form),
  )
