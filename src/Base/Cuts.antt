-- ===== src/Base/Cuts.antt =====
-- Lists cut at a position: what take and drop leave.
use Prim.Native.Nat.{ℕ, zero, suc, ◌+◌, ◌-◌, ◌≤◌, min}
use mathlib.Core.Path.{◌≡◌, refl, sym, ap, ◌∙◌}
use mathlib.Core.List.{List, [], ◌∷◌, ◌++◌}
use native.Mathlib.Omega.{arith}
use yc_libvhost_server.Base.Lists.{length, take, drop}

min-suc : (n k : ℕ) → min (suc n) (suc k) ≡ suc (min n k)
min-suc n k = omega arith

min_zero : (n : ℕ) → min 0 n ≡ 0
min_zero n = omega arith

suc_add : (m n : ℕ) → suc (m + n) ≡ suc m + n
suc_add m n = omega arith

module _ {ℓ} {A : Type ℓ} where
  pub take-[] : (n : ℕ) → take {A = A} n [] ≡ []
  take-[] zero = refl
  take-[] (suc n) = refl

  drop-[] : (n : ℕ) → drop {A = A} n [] ≡ []
  drop-[] zero = refl
  drop-[] (suc n) = refl

  pub length-take : (n : ℕ) (xs : List A) → length (take n xs) ≡ min n (length xs)
  length-take zero xs = omega arith
  length-take (suc n) [] = omega arith
  length-take (suc n) (x ∷ xs) = omega (arith, length-take n xs)

  pub length-drop : (n : ℕ) (xs : List A) → length (drop n xs) ≡ length xs - n
  length-drop zero xs = omega arith
  length-drop (suc n) [] = omega arith
  length-drop (suc n) (x ∷ xs) = omega (arith, length-drop n xs)

  pub take-min : (n : ℕ) (xs : List A) → take (min n (length xs)) xs ≡ take n xs
  take-min zero xs = ap (λ k. take k xs) (min_zero (length xs))
  take-min (suc n) [] = take-[] (min (suc n) 0)
  take-min (suc n) (x ∷ xs) =
      ap (λ k. take k (x ∷ xs)) (min-suc n (length xs)) ∙ ap (λ ys. x ∷ ys) (take-min n xs)

  pub drop-past : (n : ℕ) (xs : List A) → length xs ≤ n → drop n xs ≡ []
  drop-past zero [] short = refl
  drop-past zero (x ∷ xs) short = absurd (omega arith)
  drop-past (suc n) [] short = refl
  drop-past (suc n) (x ∷ xs) short = drop-past n xs (omega arith)

  pub drop-drop : (m n : ℕ) (xs : List A) → drop n (drop m xs) ≡ drop (m + n) xs
  drop-drop zero n xs = ap (λ k. drop k xs) (omega arith)
  drop-drop (suc m) n [] = drop-[] n ∙ sym (drop-[] (suc m + n))
  drop-drop (suc m) n (x ∷ xs) = drop-drop m n xs ∙ ap (λ k. drop k (x ∷ xs)) (suc_add m n)

  pub take-append-take : (m n : ℕ) (xs : List A) → take m xs ++ take n (drop m xs) ≡ take (m + n) xs
  take-append-take zero n xs = ap (λ k. take k xs) (omega arith)
  take-append-take (suc m) n [] = take-[] n ∙ sym (take-[] (suc m + n))
  take-append-take (suc m) n (x ∷ xs) =
      ap (λ ys. x ∷ ys) (take-append-take m n xs) ∙ ap (λ k. take k (x ∷ xs)) (suc_add m n)
