-- ===== src/Server/Sums.antt =====
-- Counts over the lists of a request queue: requests, requests of a vring, occurrences.
use yc_libvhost_server.Base.{
  ◌==◌, if◌then◌else◌, ==_iff, Bool-cases, length, reverse_onto, ℕ, ◌+◌, ◌-◌, ◌<◌, ◌≡◌, refl, ap,
  inl, inr, true, List, [], ◌∷◌, ◌++◌, arith,
}
use yc_libvhost_server.Server.{linked, remove}

unfoldable pub sum : (ℕ → ℕ) → List ℕ → ℕ
sum f [] = 0
sum f (x ∷ xs) = f x + sum f xs

abbrev pub one_if : ℕ → ℕ → ℕ
one_if x y = if x == y then 1 else 0

-- How often a list links a request.
abbrev pub occurrences : ℕ → List ℕ → ℕ
occurrences a xs = sum (λ x. one_if x a) xs

pub sum-append : (f : ℕ → ℕ) (xs ys : List ℕ) → sum f (xs ++ ys) ≡ sum f xs + sum f ys
unfolding sum
sum-append f [] ys = omega arith
sum-append f (x ∷ xs) ys = omega (arith, sum-append f xs ys)

pub sum-reverse_onto :
    (f : ℕ → ℕ) (xs ys : List ℕ) → sum f (reverse_onto xs ys) ≡ sum f xs + sum f ys
unfolding sum
sum-reverse_onto f [] ys = omega arith
sum-reverse_onto f (x ∷ xs) ys = omega (arith, sum-reverse_onto f xs (x ∷ ys))

pub sum_same : (f g : ℕ → ℕ) (xs : List ℕ) → ((x : ℕ) → f x ≡ g x) → sum f xs ≡ sum g xs
unfolding sum
sum_same f g [] h = refl
sum_same f g (x ∷ xs) h = omega (arith, h x, sum_same f g xs h)

pub sum-one : (xs : List ℕ) → sum (λ x. 1) xs ≡ length xs
unfolding sum
sum-one [] = refl
sum-one (x ∷ xs) = omega (arith, sum-one xs)

pub sum-remove :
    (f : ℕ → ℕ) (a : ℕ) (xs : List ℕ) → 0 < occurrences a xs → sum f xs ≡ f a + sum f (remove a xs)
unfolding sum remove
sum-remove f a [] h = absurd (omega arith)
sum-remove f a (x ∷ xs) h = elim (Bool-cases (x == a)) [
  | inl e ↦ rw e (omega (arith, ap f ((==_iff x a).0 e)))
  | inr n ↦ rw n (omega (arith, sum-remove f a xs (ground arith)))
]

pub occurrences-remove :
    (a b : ℕ) (xs : List ℕ) → occurrences b (remove a xs) ≡ occurrences b xs - one_if a b
unfolding sum remove
occurrences-remove a b [] = ground arith
occurrences-remove a b (x ∷ xs) = ground (arith, occurrences-remove a b xs)

pub linked-occurrences : (a : ℕ) (xs : List ℕ) → 0 < occurrences a xs → linked a xs ≡ true
unfolding sum linked
linked-occurrences a [] h = absurd (omega arith)
linked-occurrences a (x ∷ xs) h = ground (arith, linked-occurrences a xs)

pub occurrences_absent :
    (a : ℕ) (xs ys : List ℕ) → occurrences a xs ≡ 0 → remove a (xs ++ a ∷ ys) ≡ xs ++ ys
unfolding sum remove
occurrences_absent a [] ys h = ground arith
occurrences_absent a (x ∷ xs) ys h = ground (arith, occurrences_absent a xs ys)

-- A list without the elements of another.
unfoldable pub remove_all : List ℕ → List ℕ → List ℕ
remove_all [] xs = xs
remove_all (y ∷ ys) xs = remove_all ys (remove y xs)
