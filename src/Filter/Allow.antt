-- ===== src/Filter/Allow.antt =====
-- What the filter lets through.
use rust_telemetry_logger.Prelude.{
  ℕ, ◌≤◌, ◌≡◌, ◌↔◌, ◌⊎◌, inl, inr, refl, arith, not, if◌then◌else◌, true, false, List, [], ◌∷◌,
  Option, none, some, ltb, ltb→ge, ltb→lt, Bool-cases, ◌==◌, ==_iff,
}
use rust_telemetry_logger.Frame.{Frame}
use rust_telemetry_logger.Filter.{FilterConfig, contains, allow}

-- `x` is one of the list's bytes.
abbrev pub IsIn : List ℕ → ℕ → Type 0
IsIn [] x = ⊥
IsIn (y ∷ ys) x = (y ≡ x) ⊎ IsIn ys x

pub contains_iff : (ys : List ℕ) (x : ℕ) → (contains ys x ≡ true) ↔ IsIn ys x
unfolding contains
contains_iff [] x = (λ e. cc, λ h. absurd h)
contains_iff (y ∷ ys) x = elim (Bool-cases (y == x)) [
  | inl same ↦ (λ e. inl ((==_iff y x).0 same), λ h. rw same)
  | inr other ↦ (
    λ e. inr ((contains_iff ys x).0 (rw other at e)),
    λ h. elim h [
      | inl same ↦ cc ((==_iff y x).1 same)
      | inr later ↦ rw other ((contains_iff ys x).1 later)
    ],
  )
]

-- The frame's type is listed, or there is no list.
abbrev pub IsListed : Option (List ℕ) → ℕ → Type 0
IsListed none t = Unit
IsListed (some list) t = IsIn list t

IsListed-iff :
    (l : Option (List ℕ)) (t : ℕ)
    → ((elim l [ none ↦ true | some list ↦ if not (contains list t) then false else true ]) ≡ true)
      ↔ IsListed l t
IsListed-iff none t = (λ e. tt, λ h. refl)
IsListed-iff (some list) t = elim (Bool-cases (contains list t)) [
  | inl holds ↦ (λ e. (contains_iff list t).0 holds, λ h. rw holds)
  | inr fails ↦ (λ e. cc (fails, e), λ h. cc (fails, (contains_iff list t).1 h))
]

-- A frame is let through exactly when its severity is at least the minimum and its type is listed
-- or no list is set.
pub allow_iff :
    (cfg : FilterConfig) (f : Frame)
    → (allow cfg f ≡ true)
      ↔ ((cfg.min_severity ≤ f.header.severity) × IsListed cfg.type_allowlist f.header.packet_type)
unfolding allow
allow_iff cfg f = elim (Bool-cases (ltb f.header.severity cfg.min_severity)) [
  | inl below ↦
      let less = ltb→lt _ _ below in rw below (λ e. cc, λ h. absurd (omega (arith, less, h.0)))
  | inr enough ↦
      let listed = IsListed-iff cfg.type_allowlist f.header.packet_type in
      rw enough (λ e. (ltb→ge _ _ enough, listed.0 e), λ h. listed.1 h.1)
]
