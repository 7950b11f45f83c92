-- ===== src/Live/Distinct.antt =====
-- worker/live.go: the tags of the generations and of the platform, compared.
use nix_ci_worker.Base.{
  ℕ, zero, suc, ◌+◌, ◌*◌, ◌-◌, ◌/◌, ◌%◌, ◌≤◌, ◌<◌, ◌≡◌, ◌≢◌, refl, sym, ap, ◌∙◌, inl, inr, Text, [],
  ◌∷◌, ◌++◌, false, ltb, length, length-append, codes, decimal, decimal_from, arith, Bool-cases,
}
use mathlib.Core.List.{append_cancel_left}
use nix_ci_worker.Live.{platform_tag, generation_tag}

-- The number that digits stand for.
unfoldable value : Text → ℕ → ℕ
value [] n = n
value (c ∷ s) n = value s (n * 10 + (c - 48))

value-append : (s : Text) (c n : ℕ) → value (s ++ c ∷ []) n ≡ value s n * 10 + (c - 48)
unfolding value
value-append [] c n = refl
value-append (d ∷ s) c n = value-append s c (n * 10 + (d - 48))

ltb-le : (a b : ℕ) → ltb a b ≡ false → b ≤ a
ltb-le a b h = ground arith

value-decimal_from : (fuel n : ℕ) → n < fuel → value (decimal_from fuel n) 0 ≡ n
unfolding value decimal_from
value-decimal_from zero n h = absurd (omega arith)
value-decimal_from (suc fuel) n h = elim (Bool-cases (ltb n 10)) [
  | inl e ↦ rw e (omega arith)
  | inr e ↦ rw e (
      let small = ltb-le n 10 e in
      let front = value-decimal_from fuel (n / 10) (omega (arith, small)) in
      value-append (decimal_from fuel (n / 10)) (48 + n % 10) 0 ∙ omega (arith, front))
]

decimal_injective : (m n : ℕ) → decimal m ≡ decimal n → m ≡ n
decimal_injective m n h =
    sym (value-decimal_from (suc m) m (omega arith))
    ∙ ap (λ (s : Text). value s 0) h
    ∙ value-decimal_from (suc n) n (omega arith)

abbrev tag_start : Text → Text → ℕ → Text
tag_start system run attempt =
    platform_tag system
    ++ codes "-run-"
    ++ run
    ++ codes "-attempt-"
    ++ decimal attempt
    ++ codes "-publication-"

pub generation_tag_injective :
    (system run : Text) (attempt m n : ℕ)
    → generation_tag system run attempt m ≡ generation_tag system run attempt n
    → m ≡ n
unfolding generation_tag
generation_tag_injective system run attempt m n h =
    decimal_injective m n
      (append_cancel_left (tag_start system run attempt) (decimal m) (decimal n) h)

pub platform_tag-generation_tag :
    (system run : Text) (attempt n : ℕ) → platform_tag system ≢ generation_tag system run attempt n
unfolding generation_tag
platform_tag-generation_tag system run attempt n h =
    let p = platform_tag system in
    let a = p ++ codes "-run-" in
    let b = a ++ run in
    let c = b ++ codes "-attempt-" in
    let d = c ++ decimal attempt in
    let e = d ++ codes "-publication-" in
    absurd (
      omega (
        arith,
        ap length h,
        length-append p (codes "-run-"),
        length-append a run,
        length-append b (codes "-attempt-"),
        length-append c (decimal attempt),
        length-append d (codes "-publication-"),
        length-append e (decimal n),
      ))
