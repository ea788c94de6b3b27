-- ===== src/Tesla/Matrix/Numbers.antt =====
-- The operations by their request forms, with the numbers of their fields.
use helianthus_modbusreg.Base.{ℕ, ◌≡◌, refl, subst, true, false, some, arith}
use helianthus_modbusreg.Tesla.Operation.{
  TeslaFc100Operation, common_system_info, wc_get_vitals, wc_get_lifetime_stats,
  wc_configure_settings, wc_get_system_info, wc_get_load_sharing_state, wc_set_provisional,
  wc_get_provisional, unlisted, OperationSpec, operation_specs,
}
use helianthus_modbusreg.Tesla.Matrix.{empty_request}

-- The operations that ask for something, which is all that their requests say, with the numbers of
-- the family field and of the request field.
pub data Asks : TeslaFc100Operation → ℕ → ℕ → Type 0 where
  for_system_info : Asks common_system_info 4 2
  for_vitals : Asks wc_get_vitals 6 1
  for_lifetime_stats : Asks wc_get_lifetime_stats 6 3
  for_wc_system_info : Asks wc_get_system_info 6 9
  for_load_sharing_state : Asks wc_get_load_sharing_state 6 11
  for_provisional : Asks wc_get_provisional 6 27

-- The operations that write what their requests carry, with the same numbers.
pub data Writes : TeslaFc100Operation → ℕ → ℕ → Type 0 where
  settings : Writes wc_configure_settings 6 7
  a_provisional : Writes wc_set_provisional 6 25

abbrev pub numbers : ℕ → ℕ → ℕ → OperationSpec
numbers family request_tag response_tag = record {
  family = family;
  request_tag = request_tag;
  response_tag = response_tag;
}

pub Asks-numbers :
    (operation : TeslaFc100Operation) (s : OperationSpec)
    → operation_specs operation ≡ some s
    → empty_request operation ≡ true
    → Asks operation s.family s.request_tag
unfolding empty_request operation_specs
Asks-numbers common_system_info s q h =
    let same : numbers 4 2 3 ≡ s = cc q in
    subst (λ n. Asks common_system_info n.family n.request_tag) same for_system_info
Asks-numbers wc_get_vitals s q h =
    let same : numbers 6 1 2 ≡ s = cc q in
    subst (λ n. Asks wc_get_vitals n.family n.request_tag) same for_vitals
Asks-numbers wc_get_lifetime_stats s q h =
    let same : numbers 6 3 4 ≡ s = cc q in
    subst (λ n. Asks wc_get_lifetime_stats n.family n.request_tag) same for_lifetime_stats
Asks-numbers wc_get_system_info s q h =
    let same : numbers 6 9 10 ≡ s = cc q in
    subst (λ n. Asks wc_get_system_info n.family n.request_tag) same for_wc_system_info
Asks-numbers wc_get_load_sharing_state s q h =
    let same : numbers 6 11 12 ≡ s = cc q in
    subst (λ n. Asks wc_get_load_sharing_state n.family n.request_tag) same for_load_sharing_state
Asks-numbers wc_get_provisional s q h =
    let same : numbers 6 27 28 ≡ s = cc q in
    subst (λ n. Asks wc_get_provisional n.family n.request_tag) same for_provisional
Asks-numbers wc_configure_settings s q h = absurd (ground arith)
Asks-numbers wc_set_provisional s q h = absurd (ground arith)
Asks-numbers unlisted s q h = absurd (ground arith)

pub Writes-numbers :
    (operation : TeslaFc100Operation) (s : OperationSpec)
    → operation_specs operation ≡ some s
    → empty_request operation ≡ false
    → Writes operation s.family s.request_tag
unfolding empty_request operation_specs
Writes-numbers wc_configure_settings s q h =
    let same : numbers 6 7 8 ≡ s = cc q in
    subst (λ n. Writes wc_configure_settings n.family n.request_tag) same settings
Writes-numbers wc_set_provisional s q h =
    let same : numbers 6 25 26 ≡ s = cc q in
    subst (λ n. Writes wc_set_provisional n.family n.request_tag) same a_provisional
Writes-numbers common_system_info s q h = absurd (ground arith)
Writes-numbers wc_get_vitals s q h = absurd (ground arith)
Writes-numbers wc_get_lifetime_stats s q h = absurd (ground arith)
Writes-numbers wc_get_system_info s q h = absurd (ground arith)
Writes-numbers wc_get_load_sharing_state s q h = absurd (ground arith)
Writes-numbers wc_get_provisional s q h = absurd (ground arith)
Writes-numbers unlisted s q h = absurd (ground arith)

abbrev pub Listed : TeslaFc100Operation → ℕ → ℕ → Type 0
Listed operation family tag =
    (response_tag : ℕ) × (operation_specs operation ≡ some (numbers family tag response_tag))

pub Listed-Asks :
    {operation : TeslaFc100Operation} {family tag : ℕ}
    → Asks operation family tag
    → (empty_request operation ≡ true) × Listed operation family tag
unfolding empty_request operation_specs
Listed-Asks for_system_info = (refl, (3, refl))
Listed-Asks for_vitals = (refl, (2, refl))
Listed-Asks for_lifetime_stats = (refl, (4, refl))
Listed-Asks for_wc_system_info = (refl, (10, refl))
Listed-Asks for_load_sharing_state = (refl, (12, refl))
Listed-Asks for_provisional = (refl, (28, refl))

pub Listed-Writes :
    {operation : TeslaFc100Operation} {family tag : ℕ}
    → Writes operation family tag
    → (empty_request operation ≡ false) × Listed operation family tag
unfolding empty_request operation_specs
Listed-Writes settings = (refl, (8, refl))
Listed-Writes a_provisional = (refl, (26, refl))
