-- ===== src/External/Heapless.antt =====
-- The crate `heapless`: vectors and deques of a fixed capacity, which is the first argument here.
-- A container is given by its contents, first element first.
use rust_telemetry_logger.Prelude.{
  ℕ, ◌+◌, ◌≡◌, Bool, List, [], ◌∷◌, ◌++◌, Option, none, some, length, ltb, leb, if◌then◌else◌,
}

-- `heapless::Vec<u8, N>`; `none` is `Err`.
pub record ByteVec : Type 0 where
  pub push : ℕ → List ℕ → ℕ → Option (List ℕ)
  pub extend_from_slice : ℕ → List ℕ → List ℕ → Option (List ℕ)

pub record ByteVecLaws (v : ByteVec) : Type 0 where
  pub push_lem :
      (n : ℕ) (xs : List ℕ) (x : ℕ)
      → v.push n xs x ≡ (if ltb (length xs) n then some (xs ++ (x ∷ [])) else none)
  pub extend_lem :
      (n : ℕ) (xs ys : List ℕ)
      → v.extend_from_slice n xs ys
        ≡ (if leb (length xs + length ys) n then some (xs ++ ys) else none)

-- `heapless::Deque<T, N>`; `pop_front` gives the element and what is left.
pub record Deque (A : Type 0) : Type 0 where
  pub is_full : ℕ → List A → Bool
  pub push_back : ℕ → List A → A → Option (List A)
  pub pop_front : List A → Option A × List A

pub record DequeLaws {A : Type 0} (d : Deque A) : Type 0 where
  pub is_full_lem : (n : ℕ) (xs : List A) → d.is_full n xs ≡ leb n (length xs)
  pub push_back_lem :
      (n : ℕ) (xs : List A) (x : A)
      → d.push_back n xs x ≡ (if ltb (length xs) n then some (xs ++ (x ∷ [])) else none)
  pub pop_front-nil : d.pop_front [] ≡ (none, [])
  pub pop_front-cons : (x : A) (xs : List A) → d.pop_front (x ∷ xs) ≡ (some x, xs)
