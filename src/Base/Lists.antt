-- ===== src/Base/Lists.antt =====
-- Lists measured and indexed by native numbers, under the library's names.
use Prim.Native.Nat.{ℕ, zero, suc, ◌+◌, ◌-◌}
use mathlib.Core.Path.{◌≡◌, refl, ap, ◌∙◌, sym}
use mathlib.Core.List.{List, [], ◌∷◌, ◌++◌, map}
use mathlib.Core.Option.{Option, none, some}
use native.Mathlib.Omega.{arith}

module _ {ℓ} {A : Type ℓ} where
  abbrev pub length : List A → ℕ
  length [] = 0
  length (x ∷ xs) = suc (length xs)

  abbrev pub get_elem? : List A → ℕ → Option A
  get_elem? [] i = none
  get_elem? (x ∷ xs) zero = some x
  get_elem? (x ∷ xs) (suc i) = get_elem? xs i

  abbrev pub set : List A → ℕ → A → List A
  set [] i v = []
  set (x ∷ xs) zero v = v ∷ xs
  set (x ∷ xs) (suc i) v = x ∷ set xs i v

  abbrev pub take : ℕ → List A → List A
  take zero xs = []
  take (suc n) [] = []
  take (suc n) (x ∷ xs) = x ∷ take n xs

  abbrev pub drop : ℕ → List A → List A
  drop zero xs = xs
  drop (suc n) [] = []
  drop (suc n) (x ∷ xs) = drop n xs

  abbrev pub replicate : ℕ → A → List A
  replicate zero a = []
  replicate (suc n) a = a ∷ replicate n a

  abbrev pub All {κ} : (A → Type κ) → List A → Type κ
  All Q (v ∷ vs) = Q v × All Q vs
  All Q [] = Unit {κ}

  take_nil : (k : ℕ) → take k [] ≡ []
  take_nil zero = refl
  take_nil (suc k) = refl

  drop_nil : (k : ℕ) → drop k [] ≡ []
  drop_nil zero = refl
  drop_nil (suc k) = refl

  pub length-append : (xs ys : List A) → length (xs ++ ys) ≡ length xs + length ys
  length-append [] ys = omega arith
  length-append (x ∷ xs) ys = omega (arith, length-append xs ys)

  pub length-replicate : (n : ℕ) (a : A) → length (replicate n a) ≡ n
  length-replicate zero a = refl
  length-replicate (suc n) a = ap suc (length-replicate n a)

  pub length-set : (xs : List A) (i : ℕ) (v : A) → length (set xs i v) ≡ length xs
  length-set [] i v = refl
  length-set (x ∷ xs) zero v = refl
  length-set (x ∷ xs) (suc i) v = ap suc (length-set xs i v)

sub_zero : (k : ℕ) → k ≡ k - 0
sub_zero k = omega arith

sub_from_zero : (k : ℕ) → 0 ≡ 0 - k
sub_from_zero k = omega arith

sub_suc : (k n : ℕ) → k - n ≡ suc k - suc n
sub_suc k n = omega arith

module _ {ℓ} {A : Type ℓ} where
  pub All-append {κ} : (Q : A → Type κ) (vs ws : List A) → All Q vs → All Q ws → All Q (vs ++ ws)
  All-append Q (v ∷ vs) ws (q, first) second = (q, All-append Q vs ws first second)
  All-append Q [] ws first second = second

  pub All-mono {κ μ} :
      {P : A → Type κ} {Q : A → Type μ} (xs : List A) → ((a : A) → P a → Q a) → All P xs → All Q xs
  All-mono [] f h = tt
  All-mono (x ∷ xs) f h = (f x h.0, All-mono xs f h.1)

  -- `take` and `drop` on two lists joined; `k - length xs` is what is left for the second.
  pub take-append :
      (k : ℕ) (xs ys : List A) → take k (xs ++ ys) ≡ take k xs ++ take (k - length xs) ys
  take-append k [] ys =
      ap (λ n. take n ys) (sub_zero k) ∙ ap (λ l. l ++ take (k - 0) ys) (sym (take_nil k))
  take-append zero (x ∷ xs) ys = ap (λ n. take n ys) (sub_from_zero (suc (length xs)))
  take-append (suc k) (x ∷ xs) ys =
      ap (λ l. x ∷ l) (take-append k xs ys)
      ∙ ap (λ n. x ∷ (take k xs ++ take n ys)) (sub_suc k (length xs))

  pub drop-append :
      (k : ℕ) (xs ys : List A) → drop k (xs ++ ys) ≡ drop k xs ++ drop (k - length xs) ys
  drop-append k [] ys =
      ap (λ n. drop n ys) (sub_zero k) ∙ ap (λ l. l ++ drop (k - 0) ys) (sym (drop_nil k))
  drop-append zero (x ∷ xs) ys = ap (λ n. (x ∷ xs) ++ drop n ys) (sub_from_zero (suc (length xs)))
  drop-append (suc k) (x ∷ xs) ys =
      drop-append k xs ys ∙ ap (λ n. drop k xs ++ drop n ys) (sub_suc k (length xs))

  pub length-take : (k : ℕ) (xs : List A) → length (take k xs) ≡ length xs - (length xs - k)
  length-take zero xs = omega arith
  length-take (suc k) [] = omega arith
  length-take (suc k) (x ∷ xs) = omega (arith, length-take k xs)

  pub length-drop : (k : ℕ) (xs : List A) → length (drop k xs) ≡ length xs - k
  length-drop zero xs = omega arith
  length-drop (suc k) [] = omega arith
  length-drop (suc k) (x ∷ xs) = omega (arith, length-drop k xs)

  -- Past a first list of known length.
  pub drop-length : (xs ys : List A) → drop (length xs) (xs ++ ys) ≡ ys
  drop-length [] ys = refl
  drop-length (x ∷ xs) ys = drop-length xs ys

pub length-map {ℓ κ} :
    {A : Type ℓ} {B : Type κ} (f : A → B) (xs : List A) → length (map f xs) ≡ length xs
length-map f [] = refl
length-map f (x ∷ xs) = ap suc (length-map f xs)
