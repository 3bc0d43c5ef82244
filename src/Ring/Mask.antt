-- ===== src/Ring/Mask.antt =====
-- `x & (Capacity - 1)` for a capacity that is a power of two.
use Prim.Native.Nat.{min, digits, bit_and-bitwise}
use native.Mathlib.Nat.{pow-suc, div-add-mod, mul-add-mod_self_left, mod-eq_of_lt, mod_self}
use qt_chatting.Prelude.{
  ℕ, zero, suc, ◌+◌, ◌-◌, ◌*◌, ◌/◌, ◌%◌, ◌^◌, ◌≤◌, ◌<◌, bit_and, ◌≡◌, refl, ap, ◌∙◌, arith, ltb,
  ltb-cases, if◌then◌else◌, inl, inr,
}
use qt_chatting.Ring.{mask, next_index}

-- The recursion that `bit_and a b` stands for, at any bound on `a`.
abbrev common : ℕ → ℕ → ℕ → ℕ
common = digits (λ _. zero) min

common_bound : (n m a b : ℕ) → a ≤ n → a ≤ m → common n a b ≡ common m a b
common_bound zero zero zero b p q = refl
common_bound zero (suc m) zero b p q = refl
common_bound (suc n) zero zero b p q = refl
common_bound (suc n) (suc m) zero b p q = refl
common_bound (suc n) (suc m) (suc a) b p q =
    omega (arith, common_bound n m (suc a / 2) (b / 2) (omega arith) (omega arith))
common_bound zero m (suc a) b p q = absurd (omega arith)
common_bound (suc n) zero (suc a) b p q = absurd (omega arith)

-- One binary digit.
bit_and_digit : (a b : ℕ) → bit_and a b ≡ bit_and (a / 2) (b / 2) * 2 + min (a % 2) (b % 2)
bit_and_digit zero b = omega (arith, bit_and-bitwise 0 b, bit_and-bitwise 0 (b / 2))
bit_and_digit (suc a) b =
    let half = suc a / 2 in
    omega (
      arith,
      bit_and-bitwise (suc a) b,
      bit_and-bitwise half (b / 2),
      common_bound a half half (b / 2) (omega arith) (omega arith),
    )

bit_and-nil : (k a : ℕ) → a ≤ k → bit_and a 0 ≡ 0
bit_and-nil k zero h = bit_and-bitwise 0 0
bit_and-nil zero (suc a) h = absurd (omega arith)
bit_and-nil (suc k) (suc a) h =
    omega (arith, bit_and_digit (suc a) 0, bit_and-nil k (suc a / 2) (omega arith))

pub one-le-two-pow : (k : ℕ) → 1 ≤ 2 ^ k
one-le-two-pow zero = omega arith
one-le-two-pow (suc k) = omega (arith, one-le-two-pow k, pow-suc 2 k)

-- The remainder by twice `p`, from its lowest digit and the remainder of the rest.
mod-double : (a p : ℕ) → 1 ≤ p → a % (p * 2) ≡ a / 2 % p * 2 + a % 2
mod-double a p h =
    let c : ℕ = a / 2 % p * 2 + a % 2 in
    let small : c < p * 2 = omega arith in
    let split : a ≡ p * 2 * (a / 2 / p) + c = omega (arith, div-add-mod (a / 2) p) in
    ap (λ t. t % (p * 2)) split ∙ mul-add-mod_self_left (p * 2) (a / 2 / p) c ∙ mod-eq_of_lt small

-- The mask of `k` ones keeps the remainder by 2 ^ k.
pub bit_and_low : (k a : ℕ) → bit_and a (2 ^ k - 1) ≡ a % 2 ^ k
bit_and_low zero a = omega (arith, bit_and-nil a a (omega arith))
bit_and_low (suc k) a =
    let p : ℕ = 2 ^ k in
    let rest : (p * 2 - 1) / 2 ≡ p - 1 = omega (arith, one-le-two-pow k) in
    rw (pow-suc 2 k, mod-double a p (one-le-two-pow k))
      (omega (
        arith,
        one-le-two-pow k,
        bit_and_digit a (p * 2 - 1),
        ap (bit_and (a / 2)) rest,
        bit_and_low k (a / 2),
      ))

-- The index `x` of a ring of `c` places, for `x` below twice `c`.
abbrev pub wrap : ℕ → ℕ → ℕ
wrap c x = if ltb x c then x else x - c

-- The successor of an index, where the capacity is a power of two that fits a size_t.
pub next_index-wrap : (k c i : ℕ) → c ≡ 2 ^ k → c < 2 ^ 64 → i < c → next_index c i ≡ wrap c (i + 1)
next_index-wrap k c i e fits h =
    let shrunk : mask c ≡ 2 ^ k - 1 = omega arith in
    let inside : (i + 1) % 2 ^ 64 ≡ i + 1 = omega arith in
    rw (inside, shrunk, bit_and_low k (i + 1), ← e)
      (elim (ltb-cases (i + 1) c) [
        | inl (below, t) ↦ rw t (mod-eq_of_lt below)
        | inr (above, t) ↦
            rw t (let last : i + 1 ≡ c = omega arith in rw last (omega (arith, mod_self c)))
      ])
