-- ===== src/Examples/Containers.antt =====
-- Vectors and deques of a fixed capacity.
use rust_telemetry_logger.Prelude.{
  ◌+◌, refl, List, [], ◌∷◌, ◌++◌, Option, none, some, length, ltb, leb, if◌then◌else◌,
}
use rust_telemetry_logger.External.Heapless.{ByteVec, ByteVecLaws, Deque, DequeLaws}

abbrev pub byte_vec : ByteVec
byte_vec = record {
  push = λ n xs x. if ltb (length xs) n then some (xs ++ (x ∷ [])) else none;
  extend_from_slice = λ n xs ys. if leb (length xs + length ys) n then some (xs ++ ys) else none;
}

pub byte_vec-laws : ByteVecLaws byte_vec
byte_vec-laws = record { push_lem = λ n xs x. refl; extend_lem = λ n xs ys. refl }

module _ (A : Type 0) where
  abbrev front : List A → Option A × List A
  front [] = (none, [])
  front (x ∷ xs) = (some x, xs)

  abbrev pub deque : Deque A
  deque = record {
    is_full = λ n xs. leb n (length xs);
    push_back = λ n xs x. if ltb (length xs) n then some (xs ++ (x ∷ [])) else none;
    pop_front = front;
  }

  pub deque-laws : DequeLaws deque
  deque-laws = record {
    is_full_lem = λ n xs. refl;
    push_back_lem = λ n xs x. refl;
    pop_front-nil = refl;
    pop_front-cons = λ x xs. refl;
  }
