-- ===== src/Shipper/Chunk.antt =====
-- `Chunk` of app/domain/shipper/utils.go.
use cloudzero_agent.Base.{
  ℕ, zero, suc, ◌≤◌, ◌<◌, List, [], ◌∷◌, ◌++◌, take, drop, length, length-take, length-drop,
  take-append-drop, All, ◌≡◌, refl, ◌∙◌, ap, arith,
}

-- The loop: `fuel` bounds the rounds, and the length of the list is enough.
unfoldable pub chunk_from {ℓ} : {A : Type ℓ} → ℕ → ℕ → List A → List (List A)
chunk_from zero n list = []
chunk_from (suc fuel) n [] = []
chunk_from (suc fuel) n (x ∷ list) = take n (x ∷ list) ∷ chunk_from fuel n (drop n (x ∷ list))

-- `n <= 0` is `n = 0` here.
unfoldable pub chunk {ℓ} : {A : Type ℓ} → List A → ℕ → List (List A)
unfolding chunk_from
chunk list zero = list ∷ []
chunk list (suc n) = chunk_from (length list) (suc n) list

unfoldable pub concat {ℓ} : {A : Type ℓ} → List (List A) → List A
concat [] = []
concat (xs ∷ xss) = xs ++ concat xss

-- A chunk has an element, and at most `n`.
abbrev pub FitsChunk {ℓ} : {A : Type ℓ} → ℕ → List A → Type 0
FitsChunk n xs = (0 < length xs) × (length xs ≤ n)

chunk_from-concat {ℓ} :
    {A : Type ℓ} (fuel n : ℕ) (list : List A)
    → 0 < n
    → length list ≤ fuel
    → concat (chunk_from fuel n list) ≡ list
unfolding chunk_from concat
chunk_from-concat zero n [] h f = refl
chunk_from-concat zero n (x ∷ list) h f = absurd (omega arith)
chunk_from-concat (suc fuel) n [] h f = refl
chunk_from-concat (suc fuel) n (x ∷ list) h f =
    ap (λ l. take n (x ∷ list) ++ l)
      (chunk_from-concat fuel n (drop n (x ∷ list)) h (omega (arith, length-drop n (x ∷ list))))
    ∙ take-append-drop n (x ∷ list)

chunk_from-FitsChunk {ℓ} :
    {A : Type ℓ} (fuel n : ℕ) (list : List A) → 0 < n → All (FitsChunk n) (chunk_from fuel n list)
unfolding chunk_from
chunk_from-FitsChunk zero n list h = tt
chunk_from-FitsChunk (suc fuel) n [] h = tt
chunk_from-FitsChunk (suc fuel) n (x ∷ list) h = (
  (omega (arith, length-take n (x ∷ list)), omega (arith, length-take n (x ∷ list))),
  chunk_from-FitsChunk fuel n (drop n (x ∷ list)) h,
)

-- For a positive size, the chunks put together are the list, in order and with nothing lost, and each
-- chunk has at least one element and at most that many.
pub chunk-concat {ℓ} :
    {A : Type ℓ} (list : List A) (n : ℕ)
    → 0 < n
    → (concat (chunk list n) ≡ list) × All (FitsChunk n) (chunk list n)
unfolding chunk
chunk-concat list zero h = absurd (omega arith)
chunk-concat list (suc n) h = (
  chunk_from-concat (length list) (suc n) list h (omega arith),
  chunk_from-FitsChunk (length list) (suc n) list h,
)
