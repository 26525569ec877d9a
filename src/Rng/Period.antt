-- ===== src/Rng/Period.antt =====
-- The affine map `x ↦ (1 + 4u) x + (1 + 2v)` modulo a power of two: its orbits.
use native.Mathlib.Nat.{
  pow-suc, zero-add, mod-lt, mod-mod_of_dvd, mod-add-mod, mod-eq_of_lt, add-mul-mod_self_left,
  dvd-add, dvd_refl, mod-eq-sub-mod,
}
use native.Mathlib.Decide.{dec_lt}
use Prim.Native.Nat.{◌∣◌}
use mathlib.Core.Path.{subst}
use godot_dn_dsimulator.Base.{
  ℕ, zero, suc, ◌+◌, ◌-◌, ◌≤◌, ◌*◌, ◌%◌, ◌^◌, ◌<◌, ◌≡◌, ◌⊎◌, inl, inr, arith, ◌∙◌, ap,
}

-- `n` steps of `f`
unfoldable pub iterate : ℕ → (ℕ → ℕ) → ℕ → ℕ
iterate zero f x = x
iterate (suc n) f x = iterate n f (f x)

pub iterate-add : (m n : ℕ) (f : ℕ → ℕ) (x : ℕ) → iterate (m + n) f x ≡ iterate n f (iterate m f x)
unfolding iterate
iterate-add zero n f x = rw zero-add
iterate-add (suc m) n f x =
    let e : suc m + n ≡ suc (m + n) = omega arith in
    ap (λ k. iterate k f x) e ∙ iterate-add m n f (f x)

abbrev pub affine : ℕ → ℕ → ℕ → ℕ
affine u v x = (1 + 4 * u) * x + (1 + 2 * v)

-- After `p` steps, for `p` a power of two, a value has moved by an odd multiple of `p` that grows
-- with the start by multiples of `4 * p` alone.
Jump : ℕ → ℕ → ℕ → Type 0
Jump u v p = (u' v' : ℕ) × ((x : ℕ) → iterate p (affine u v) x ≡ x + p * (1 + 2 * v' + 4 * u' * x))

Jump-one : (u v : ℕ) → Jump u v 1
unfolding Jump iterate
Jump-one u v = (u, v, λ x. omega arith)

double_algebra :
    (p a b x : ℕ)
    → let y = x + p * (1 + 2 * b + 4 * a * x) in
      y + p * (1 + 2 * b + 4 * a * y)
      ≡ x + (p + p) * (1 + 2 * (b + a * p * (1 + 2 * b)) + 4 * (a + 2 * a * a * p) * x)
double_algebra p a b x = omega arith

Jump-double : (u v p : ℕ) → Jump u v p → Jump u v (p + p)
unfolding Jump
Jump-double u v p (a, b, h) = (
  a + 2 * a * a * p,
  b + a * p * (1 + 2 * b),
  λ x.
      iterate-add p p (affine u v) x
      ∙ h (iterate p (affine u v) x)
      ∙ ap (λ y. y + p * (1 + 2 * b + 4 * a * y)) (h x)
      ∙ double_algebra p a b x,
)

Jump-pow : (u v k : ℕ) → Jump u v (2 ^ k)
unfolding Jump
Jump-pow u v zero = Jump-one u v
Jump-pow u v (suc k) =
    let e : 2 ^ k + 2 ^ k ≡ 2 ^ suc k = omega (arith, pow-suc 2 k) in
    subst (Jump u v) e (Jump-double u v (2 ^ k) (Jump-pow u v k))

dvd_twice : (p : ℕ) → p ∣ (p + p)
dvd_twice p = dvd-add p (dvd_refl p) (dvd_refl p)

-- A residue modulo `p` is one of two residues modulo `p + p`, and `p` more is the other one.
halves :
    (p y : ℕ)
    → 0 < p
    → ((y % (p + p) ≡ y % p) × ((y + p) % (p + p) ≡ y % p + p))
      ⊎ ((y % (p + p) ≡ y % p + p) × ((y + p) % (p + p) ≡ y % p))
halves p y h =
    let r : ℕ = y % (p + p) in
    let small : r < p + p = mod-lt y (omega arith) in
    let same : r % p ≡ y % p = mod-mod_of_dvd p y (dvd_twice p) in
    let moved : (r + p) % (p + p) ≡ (y + p) % (p + p) = mod-add-mod y (p + p) p in
    elim (dec_lt r p) [
      | yes low ↦ inl (
        omega (arith, same, mod-eq_of_lt low),
        omega (
          arith,
          moved,
          same,
          mod-eq_of_lt low,
          mod-eq_of_lt {n = r + p} {m = p + p} (omega arith),
        ),
      )
      | no high ↦
          let over : p ≤ r = omega arith in
          let rest : (r - p) % p ≡ r - p = mod-eq_of_lt (omega arith) in
          let high1 : r ≡ y % p + p = omega (arith, same, mod-eq-sub-mod over, rest) in
          let wraps : (r + p) % (p + p) ≡ (r + p - (p + p)) % (p + p) =
            mod-eq-sub-mod (omega arith) in
          let stays : (r + p - (p + p)) % (p + p) ≡ r + p - (p + p) = mod-eq_of_lt (omega arith) in
          inr (high1, omega (arith, moved, wraps, stays, high1))
    ]

residue_cases :
    (p y t : ℕ)
    → 0 < p
    → y % p ≡ t % p
    → (y % (p + p) ≡ t % (p + p)) ⊎ ((y + p) % (p + p) ≡ t % (p + p))
residue_cases p y t h e = omega (arith, halves p y h, halves p t h)

-- an odd multiple of `p` counts as `p` modulo `p + p`
odd_multiple : (p y m : ℕ) → (y + p * (1 + 2 * m)) % (p + p) ≡ (y + p) % (p + p)
odd_multiple p y m =
    let e : y + p * (1 + 2 * m) ≡ (y + p) + (p + p) * m = omega arith in
    rw e (add-mul-mod_self_left (y + p) (p + p) m)

regroup : (p a b y : ℕ) → y + p * (1 + 2 * b + 4 * a * y) ≡ y + p * (1 + 2 * (b + 2 * a * y))
regroup p a b y = omega arith

-- Every residue is reached from every start, within as many steps as there are residues.
pub reach : (u v k s t : ℕ) → (n : ℕ) × (n < 2 ^ k) × (iterate n (affine u v) s % 2 ^ k ≡ t % 2 ^ k)
unfolding Jump
reach u v zero s t = (0, omega arith, omega arith)
reach u v (suc k) s t =
    let p : ℕ = 2 ^ k in
    let e : p + p ≡ 2 ^ suc k = omega (arith, pow-suc 2 k) in
    let (n, below, here) = reach u v k s t in
    let y : ℕ = iterate n (affine u v) s in
    let (a, b, jumps) = Jump-pow u v k in
    let positive : 0 < p = omega arith in
    elim (residue_cases p y t positive here) [
      | inl at_once ↦ (n, omega arith, subst (λ q. y % q ≡ t % q) e at_once)
      | inr later ↦ (
        n + p,
        omega arith,
        subst (λ q. iterate (n + p) (affine u v) s % q ≡ t % q) e
            (ap (λ z. z % (p + p)) (iterate-add n p (affine u v) s ∙ jumps y ∙ regroup p a b y)
              ∙ odd_multiple p y (b + 2 * a * y)
              ∙ later),
      )
    ]
