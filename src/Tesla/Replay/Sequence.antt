-- ===== src/Tesla/Replay/Sequence.antt =====
-- The accepted sequences of replays.
use helianthus_modbusreg.Base.{
  ℕ, ◌≡◌, ◌↔◌, inl, inr, refl, sym, ap, ◌∙◌, List, [], ◌∷◌, Result, ok, Result-cases, arith,
}
use helianthus_modbusreg.Tesla.Replay.{
  Replay, ReplayError, intermediate, terminal, replay_loop, decode_replay_sequence,
}

-- The responses of an accepted sequence: a terminal one, or an echo and a terminal one.
pub data Answers (decode : List ℕ → Result ReplayError Replay) (payloads : List (List ℕ))
    (rs : List Replay) : Type 0 where
  answer :
      (p : List ℕ) (r : Replay)
      → payloads ≡ p ∷ []
      → rs ≡ r ∷ []
      → decode p ≡ ok r
      → r.kind ≡ terminal
      → Answers decode payloads rs
  echo_answer :
      (p q : List ℕ) (e r : Replay)
      → payloads ≡ p ∷ q ∷ []
      → rs ≡ e ∷ r ∷ []
      → decode p ≡ ok e
      → e.kind ≡ intermediate
      → decode q ≡ ok r
      → r.kind ≡ terminal
      → Answers decode payloads rs

module _ (decode : List ℕ → Result ReplayError Replay) where
  one_answer :
      (p : List ℕ) (rs : List Replay)
      → decode_replay_sequence decode (p ∷ []) ≡ ok rs
      → Answers decode (p ∷ []) rs
  unfolding decode_replay_sequence replay_loop
  one_answer p rs h = elim (Result-cases (decode p)) [
    | inl (r, q) ↦ answer p r refl (ground arith) q (ground arith)
    | inr (e, q) ↦ absurd (ground arith)
  ]

  echo_then_answer :
      (p p' : List ℕ) (rs : List Replay)
      → decode_replay_sequence decode (p ∷ p' ∷ []) ≡ ok rs
      → Answers decode (p ∷ p' ∷ []) rs
  unfolding decode_replay_sequence replay_loop
  echo_then_answer p p' rs h = elim (Result-cases (decode p)) [
    | inl (e, q) ↦ elim (Result-cases (decode p')) [
      | inl (r, q') ↦ echo_answer p p' e r refl (ground arith) q (ground arith) q' (ground arith)
      | inr (f, q') ↦ absurd (ground arith)
    ]
    | inr (f, q) ↦ absurd (ground arith)
  ]

  accepted :
      (payloads : List (List ℕ)) (rs : List Replay)
      → decode_replay_sequence decode payloads ≡ ok rs
      → Answers decode payloads rs
  unfolding decode_replay_sequence
  accepted [] rs h = absurd (ground arith)
  accepted (p ∷ []) rs h = one_answer p rs h
  accepted (p ∷ p' ∷ []) rs h = echo_then_answer p p' rs h
  accepted (p ∷ p' ∷ p'' ∷ ps) rs h = absurd (ground arith)

  accepts :
      (payloads : List (List ℕ)) (rs : List Replay)
      → Answers decode payloads rs
      → decode_replay_sequence decode payloads ≡ ok rs
  unfolding decode_replay_sequence replay_loop
  accepts payloads rs (answer p r sent got d k) =
      ap (decode_replay_sequence decode) sent ∙ simp (d, k) (ap ok (sym got))
  accepts payloads rs (echo_answer p p' e r sent got d k d' k') =
      ap (decode_replay_sequence decode) sent ∙ simp (d, k, d', k') (ap ok (sym got))

-- A sequence of replays is accepted exactly when it is one terminal response, or one echo of the
-- request and then one terminal response; the results are their replays.
pub decode_replay_sequence_iff :
    (decode : List ℕ → Result ReplayError Replay) (payloads : List (List ℕ)) (rs : List Replay)
    → (decode_replay_sequence decode payloads ≡ ok rs) ↔ Answers decode payloads rs
decode_replay_sequence_iff decode payloads rs =
    (accepted decode payloads rs, accepts decode payloads rs)
