-- ===== src/Prelude/Runs.antt =====
-- Rust code that may panic: indexing, slicing and copying check their bounds.
use Prim.Native.Nat.{ℕ, zero, suc, ◌+◌, ◌-◌, ◌≤◌, ◌<◌}
use mathlib.Core.Path.{◌≡◌, refl, ap, ◌∙◌}
use mathlib.Core.Bool.{◌&&◌}
use mathlib.Core.Option.{Option, none, some}
use mathlib.Core.List.{List, [], ◌∷◌, ◌++◌}
use native.Mathlib.Omega.{arith}
use rust_telemetry_logger.Prelude.Tests.{ltb, lt→ltb, leb, ◌==◌, if◌then◌else◌}
use rust_telemetry_logger.Prelude.Lists.{
  length, All, get_elem?, set, replicate, length-replicate, take, drop, length-append, length-drop,
  drop-drop, take-append_eq, drop-append_add, set-append,
}

-- A computation that returns, or panics. `diverge` is no Rust value: a loop ran out of its fuel.
pub data Run {ℓ} (A : Type ℓ) : Type ℓ where
  ret : A → Run A
  panic : Run A
  diverge : Run A

infixl 5 ◌>>=◌
abbrev pub ◌>>=◌ {ℓ κ} : {A : Type ℓ} {B : Type κ} → Run A → (A → Run B) → Run B
ret a >>= f = f a
panic >>= f = panic
diverge >>= f = diverge

abbrev pub or_panic {ℓ} : {A : Type ℓ} → Option A → Run A
or_panic none = panic
or_panic (some a) = ret a

-- `xs[i]`
unfoldable pub index : List ℕ → ℕ → Run ℕ
index xs i = or_panic (get_elem? xs i)

-- `xs[lo..hi]`
unfoldable pub slice : List ℕ → ℕ → ℕ → Run (List ℕ)
slice xs lo hi =
    if leb lo hi && leb hi (length xs) then ret (take (hi - lo) (drop lo xs)) else panic

-- `xs[i] = v`
unfoldable pub set_index : List ℕ → ℕ → ℕ → Run (List ℕ)
set_index xs i v = if ltb i (length xs) then ret (set xs i v) else panic

-- `xs[lo..hi].copy_from_slice(src)`
unfoldable pub copy_at : List ℕ → ℕ → ℕ → List ℕ → Run (List ℕ)
copy_at xs lo hi src =
    if leb lo hi && (leb hi (length xs) && (length src == hi - lo))
    then ret (take lo xs ++ (src ++ drop hi xs))
    else panic

pub set_index_ret : (xs : List ℕ) (i v : ℕ) → i < length xs → set_index xs i v ≡ ret (set xs i v)
unfolding set_index
set_index_ret xs i v h = rw (lt→ltb i (length xs) h) refl

pub >>=-eq-ret {ℓ κ} :
    {A : Type ℓ} {B : Type κ} (m : Run A) (f : A → Run B) {b : B}
    → (m >>= f) ≡ ret b
    → (a : A) × (m ≡ ret a) × (f a ≡ ret b)
>>=-eq-ret (ret a) f h = (a, refl, h)
>>=-eq-ret panic f h = cc
>>=-eq-ret diverge f h = cc

-- Inside the bounds nothing panics.
pub index_ret : (xs : List ℕ) (i : ℕ) → i < length xs → (v : ℕ) × (index xs i ≡ ret v)
unfolding index
index_ret [] i h = absurd (omega arith)
index_ret (x ∷ xs) zero h = (x, refl)
index_ret (x ∷ xs) (suc i) h = index_ret xs i (omega arith)

pub index-All {κ} :
    (P : ℕ → Type κ) (xs : List ℕ) (i : ℕ)
    → All P xs
    → i < length xs
    → (v : ℕ) × (index xs i ≡ ret v) × P v
unfolding index
index-All P [] i h room = absurd (omega arith)
index-All P (x ∷ xs) zero h room = (x, refl, h.0)
index-All P (x ∷ xs) (suc i) h room = index-All P xs i h.1 (omega arith)

pub slice_ret :
    (xs : List ℕ) (lo hi : ℕ)
    → lo ≤ hi
    → hi ≤ length xs
    → slice xs lo hi ≡ ret (take (hi - lo) (drop lo xs))
unfolding slice
slice_ret xs lo hi h k = ground arith

-- Writing behind what is written already: the buffer is the written part and the rest.
pub set_index-append :
    (written rest : List ℕ) (i v : ℕ)
    → i ≡ length written
    → 0 < length rest
    → set_index (written ++ rest) i v ≡ ret (written ++ (v ∷ drop 1 rest))
unfolding set_index
set_index-append written rest i v e h =
    rw (lt→ltb i (length (written ++ rest)) (rw length-append (omega arith)))
      (ap ret (set-append written rest i v e h))

pub copy_at-append :
    (written rest src : List ℕ) (lo hi : ℕ)
    → lo ≡ length written
    → hi ≡ length written + length src
    → length src ≤ length rest
    → copy_at (written ++ rest) lo hi src ≡ ret (written ++ (src ++ drop (length src) rest))
unfolding copy_at
copy_at-append written rest src lo hi e e' h = ground (
  arith,
  length-append written rest,
  take-append_eq written rest lo e,
  drop-append_add written rest (length src) hi e',
)

-- A local array `[0u8; N]`.
unfoldable pub zeroed : ℕ → List ℕ
zeroed n = replicate n 0

pub length-zeroed : (n : ℕ) → length (zeroed n) ≡ n
unfolding zeroed
length-zeroed n = length-replicate n 0

-- A buffer that is written from the front: `written` replaces its first bytes.
pub set_index_front :
    (written buf : List ℕ) (i v : ℕ)
    → i ≡ length written
    → i < length buf
    → set_index (written ++ drop i buf) i v ≡ ret (written ++ (v ∷ drop (i + 1) buf))
set_index_front written buf i v e h =
    set_index-append written (drop i buf) i v e (omega (arith, length-drop i buf))
    ∙ ap (λ l. ret (written ++ (v ∷ l))) (drop-drop 1 i buf)

pub copy_at_front :
    (written buf src : List ℕ) (lo hi : ℕ)
    → lo ≡ length written
    → hi ≡ lo + length src
    → hi ≤ length buf
    → copy_at (written ++ drop lo buf) lo hi src ≡ ret (written ++ (src ++ drop hi buf))
copy_at_front written buf src lo hi e e' h =
    copy_at-append written (drop lo buf) src lo hi e (omega arith)
      (omega (arith, length-drop lo buf))
    ∙ ap (λ l. ret (written ++ (src ++ l)))
        (drop-drop (length src) lo buf ∙ ap (λ k. drop k buf) {x = lo + length src} (omega arith))

pub slice_front : (xs ys : List ℕ) (n : ℕ) → n ≡ length xs → slice (xs ++ ys) 0 n ≡ ret xs
slice_front xs ys n e =
    slice_ret (xs ++ ys) 0 n (omega arith) (rw length-append (omega arith))
    ∙ ap ret (take-append_eq xs ys (n - 0) (omega arith))

-- An element behind a known front.
pub index_append : (xs ys : List ℕ) (x i : ℕ) → i ≡ length xs → index (xs ++ (x ∷ ys)) i ≡ ret x
unfolding index
index_append [] ys x zero e = refl
index_append [] ys x (suc i) e = absurd (omega arith)
index_append (w ∷ xs) ys x zero e = absurd (omega arith)
index_append (w ∷ xs) ys x (suc i) e = index_append xs ys x i (omega arith)

-- The part between two known parts.
pub slice_between :
    (xs ys zs : List ℕ) (lo hi : ℕ)
    → lo ≡ length xs
    → hi ≡ lo + length ys
    → slice (xs ++ (ys ++ zs)) lo hi ≡ ret ys
slice_between xs ys zs lo hi e e' =
    slice_ret (xs ++ (ys ++ zs)) lo hi (omega arith)
      (rw length-append (rw length-append (omega arith)))
    ∙ ap ret (
        rw (drop-append_add xs (ys ++ zs) 0 lo (omega arith))
          (take-append_eq ys zs (hi - lo) (omega arith)))

pub index_append_second :
    (xs ys : List ℕ) (x y i : ℕ) → i ≡ length xs + 1 → index (xs ++ (x ∷ (y ∷ ys))) i ≡ ret y
unfolding index
index_append_second [] ys x y zero e = absurd (omega arith)
index_append_second [] ys x y (suc zero) e = refl
index_append_second [] ys x y (suc (suc i)) e = absurd (omega arith)
index_append_second (w ∷ xs) ys x y zero e = absurd (omega arith)
index_append_second (w ∷ xs) ys x y (suc i) e = index_append_second xs ys x y i (omega arith)

pub ret-injective {ℓ} : {A : Type ℓ} {a b : A} → ret a ≡ ret b → a ≡ b
ret-injective h = cc
