-- ===== src/Tls/Roots.antt =====
-- The list of root certificates and the pool that is made of it.
use cloudzero_agent.Base.{
  ℕ, zero, suc, ◌≤◌, Option, none, some, List, [], ◌∷◌, take, length, length-take, ltb,
  if◌then◌else◌, Bool-cases, inl, inr, ◌≡◌, refl, ap, sym, ◌∙◌, arith,
}
use cloudzero_agent.Tls.Defs.{remove_back, push_roots}

module _ {ℓ} {R : Type ℓ} where
  remove_back_lem : (x : R) (xs : List R) → remove_back (x ∷ xs) ≡ take (length xs) (x ∷ xs)
  remove_back_lem x [] = refl
  remove_back_lem x (y ∷ xs) = ap (◌∷◌ x) (remove_back_lem y xs)

  take_all : (n : ℕ) (xs : List R) → length xs ≤ n → take n xs ≡ xs
  take_all zero [] h = refl
  take_all zero (x ∷ xs) h = absurd (omega arith)
  take_all (suc n) [] h = refl
  take_all (suc n) (x ∷ xs) h = ap (◌∷◌ x) (take_all n xs (omega arith))

  take-take : (n : ℕ) (xs : List R) → take n (take (suc n) xs) ≡ take n xs
  take-take zero xs = refl
  take-take (suc n) [] = refl
  take-take (suc n) (x ∷ xs) = ap (◌∷◌ x) (take-take n xs)

  take-cons : (n : ℕ) (x : R) (xs : List R) → take n (x ∷ take n xs) ≡ take n (x ∷ xs)
  take-cons zero x xs = refl
  take-cons (suc n) x xs = ap (◌∷◌ x) (take-take n xs)

  -- One root more.
  push_one :
      (limit : ℕ) (x : R) (xs : List R)
      → length xs ≤ limit
      → (if ltb limit (length (x ∷ xs)) then remove_back (x ∷ xs) else x ∷ xs) ≡ take limit (x ∷ xs)
  push_one limit x xs h = elim (Bool-cases (ltb limit (length (x ∷ xs)))) [
    | inl f ↦ rw f (remove_back_lem x xs ∙ ap (λ n. take n (x ∷ xs)) (ground arith))
    | inr f ↦ rw f (sym (take_all limit (x ∷ xs) (ground arith)))
  ]

  -- The elements of a list, one by one, before those of another.
  abbrev pub newest_first : List R → List R → List R
  newest_first [] seen = seen
  newest_first (x ∷ xs) seen = newest_first xs (x ∷ seen)

  pub push_roots-take :
      (limit : ℕ) (seen cas : List R)
      → push_roots limit (take limit seen) cas ≡ take limit (newest_first cas seen)
  unfolding push_roots
  push_roots-take limit seen [] = refl
  push_roots-take limit seen (x ∷ cas) =
      ap (λ l. push_roots limit l cas)
        (push_one limit x (take limit seen) (ground (arith, length-take limit seen))
          ∙ take-cons limit x seen)
      ∙ push_roots-take limit (x ∷ seen) cas

  -- No pool is stored before there is a root.
  abbrev pub pool_of : ℕ → List R → Option (List R)
  pool_of limit [] = none
  pool_of limit (x ∷ seen) = some (take limit (x ∷ seen))

  pub pool_of-newest_first :
      (limit : ℕ) (cas : List R) (x : R) (seen : List R)
      → some (take limit (newest_first cas (x ∷ seen)))
        ≡ pool_of limit (newest_first cas (x ∷ seen))
  pool_of-newest_first limit [] x seen = refl
  pool_of-newest_first limit (y ∷ cas) x seen = pool_of-newest_first limit cas y (x ∷ seen)

  pub take-nil : (n : ℕ) → take {A = R} n [] ≡ []
  take-nil zero = refl
  take-nil (suc n) = refl
