-- ===== src/Money/Decimals.antt =====
-- `nDecimals`, and amounts that are whole numbers of units.
use native.Mathlib.Nat.{pow-suc}
use native.Mathlib.Decide.{dec_le}
use schulealsstaat.Base.{
  ℕ, zero, suc, ◌-◌, ◌*◌, ◌/◌, ◌%◌, ◌^◌, ◌≤◌, ◌≡◌, inl, inr, arith, Bool-cases, ◌==◌,
}
use schulealsstaat.Money.{places}

pow_sub_suc : (k n : ℕ) → n ≤ k → 10 ^ (suc k - n) ≡ 10 ^ (k - n) * 10
pow_sub_suc k n h = let e : suc k - n ≡ suc (k - n) = omega arith in rw (e, pow-suc) (omega arith)

pow_sub_self : (k v n : ℕ) → k ≤ n → v ≡ v * 10 ^ (k - n)
pow_sub_self k v n h = let e : k - n ≡ 0 = omega arith in rw e (omega arith)

-- With at most `n` of `k` decimal places, a value is a multiple of 10^(k - n).
pub places_multiple : (k v n : ℕ) → places k v ≤ n → (q : ℕ) × (v ≡ q * 10 ^ (k - n))
unfolding places
places_multiple zero v n h = (v, pow_sub_self 0 v n (omega arith))
places_multiple (suc k) v n h = elim (dec_le (suc k) n) [
  | yes all ↦ (v, pow_sub_self (suc k) v n all)
  | no less ↦ elim (Bool-cases (v % 10 == 0)) [
    | inl e ↦
        let (q, eq) = places_multiple k (v / 10) n (rw e at h) in
        (q, rw (pow_sub_suc k n (omega arith)) (ground (arith, eq)))
    | inr e ↦ absurd (omega (arith, rw e at h))
  ]
]

places-le : (k v : ℕ) → places k v ≤ k
unfolding places
places-le zero v = omega arith
places-le (suc k) v = ground (arith, places-le k (v / 10))

places-le_of : (k v n : ℕ) → k ≤ n → places k v ≤ n
places-le_of k v n h = omega (arith, places-le k v)

tenfold : (q w : ℕ) → (q * (w * 10) / 10 ≡ q * w) × (q * (w * 10) % 10 ≡ 0)
tenfold q w = (omega arith, omega arith)

-- Conversely, a multiple of 10^(k - n) shows at most `n` of `k` decimal places.
places_of_multiple : (k q n : ℕ) → places k (q * 10 ^ (k - n)) ≤ n
unfolding places
places_of_multiple zero q n = omega arith
places_of_multiple (suc k) q n = elim (dec_le (suc k) n) [
  | yes all ↦ places-le_of (suc k) (q * 10 ^ (suc k - n)) n all
  | no less ↦
      rw (pow_sub_suc k n (omega arith), (tenfold q (10 ^ (k - n))).0, (tenfold q (10 ^ (k - n))).1)
        (places_of_multiple k q n)
]
