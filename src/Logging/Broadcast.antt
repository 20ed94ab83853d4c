-- ===== src/Logging/Broadcast.antt =====
-- The broadcast address of a network.
use Prim.Native.Nat.{bit_or, bit_or-bitwise, digits, max}
use mathlib.Core.Path.{ap₂}
use native.Mathlib.Numerals.{unary_clauses}
use native.Mathlib.Nat.{mul_assoc, mul_comm}
use native.Mathlib.Decide.{ℕ_discrete}
use ftpserv_u.Prelude.{
  ℕ, zero, suc, ◌+◌, ◌-◌, ◌*◌, ◌/◌, ◌%◌, ◌^◌, ◌≤◌, ◌<◌, ◌≡◌, refl, ap, sym, ◌∙◌, ◌≢◌, is_neg, none,
  some, ◌||◌, if◌then◌else◌, arith,
}
use ftpserv_u.Logging.{NetInfo, get_broadcast_address}

abbrev or_digits : ℕ → ℕ → ℕ → ℕ
or_digits = digits (λ b. b) max

or_ran_out : (n b : ℕ) → or_digits n 0 b ≡ b
or_ran_out zero b = refl
or_ran_out (suc n) b = refl

max_bit : (x y : ℕ) → x < 2 → y ≡ 1 → max x y ≡ 1
max_bit zero y h e = rw e refl
max_bit (suc zero) y h e = rw e refl
max_bit (suc (suc x)) y h e = absurd (omega arith)

max-zero : (x : ℕ) → max x 0 ≡ x
max-zero zero = refl
max-zero (suc x) = simp unary_clauses refl

-- One digit of the two numbers.
or_step :
    (n a b : ℕ)
    → a ≢ 0
    → a ≤ n
    → or_digits n a b ≡ or_digits (n - 1) (a / 2) (b / 2) * 2 + max (a % 2) (b % 2)
or_step zero zero b h k = absurd (h refl)
or_step zero (suc a) b h k = absurd (omega arith)
or_step (suc n) zero b h k = absurd (h refl)
or_step (suc n) (suc a) b h k = let e : suc n - 1 ≡ n = omega arith in rw e refl

or_zero : (n a : ℕ) → a ≤ n → or_digits n a 0 ≡ a
or_zero zero zero h = refl
or_zero zero (suc a) h = absurd (omega arith)
or_zero (suc n) zero h = refl
or_zero (suc n) (suc a) h = omega (arith, or_zero n (suc a / 2) (omega arith), max-zero (suc a % 2))

pow_pos : (k : ℕ) → 0 < 2 ^ k
pow_pos zero = omega arith
pow_pos (suc k) = simp unary_clauses (omega (arith, pow_pos k))

pow_double : (k : ℕ) → 2 ^ suc k ≡ 2 * 2 ^ k
pow_double k = simp unary_clauses (omega arith)

-- The low digits are all set, and the others stay.
or_low :
    (k n m l : ℕ)
    → l < 2 ^ k
    → m * 2 ^ k + l ≤ n
    → or_digits n (m * 2 ^ k + l) (2 ^ k - 1) ≡ m * 2 ^ k + (2 ^ k - 1)
or_low zero n m l h fits =
    let low : l ≡ 0 = omega arith in
    let whole : m * 2 ^ 0 + l ≡ m = omega arith in
    rw whole (or_zero n m (omega arith) ∙ omega arith)
or_low (suc k) n m l h fits = elim (ℕ_discrete (m * 2 ^ suc k + l) 0) [
  | yes e ↦ rw e (or_ran_out n (2 ^ suc k - 1) ∙ omega (arith, e))
  | no e ↦
      let double = pow_double k in
      let multiple : m * 2 ^ suc k ≡ 2 * (m * 2 ^ k) = ap (λ (t : ℕ). m * t) double ∙ swap in
      let half : (m * 2 ^ suc k + l) / 2 ≡ m * 2 ^ k + l / 2 = omega (arith, multiple) in
      let half_low : (2 ^ suc k - 1) / 2 ≡ 2 ^ k - 1 = omega (arith, double, pow_pos k) in
      let odd : (2 ^ suc k - 1) % 2 ≡ 1 = omega (arith, double, pow_pos k) in
      let bit = max_bit ((m * 2 ^ suc k + l) % 2) ((2 ^ suc k - 1) % 2) (omega arith) odd in
      let ih = or_low k (n - 1) m (l / 2) (omega (arith, double)) (omega (arith, multiple, e)) in
      or_step n (m * 2 ^ suc k + l) (2 ^ suc k - 1) e fits
      ∙ ap₂ (λ (x y : ℕ). x * 2 + y) (ap₂ (or_digits (n - 1)) half half_low ∙ ih) bit
      ∙ omega (arith, multiple, double, pow_pos k)
]
  where
    swap : m * (2 * 2 ^ k) ≡ 2 * (m * 2 ^ k)
    swap =
        sym (mul_assoc m 2 (2 ^ k))
        ∙ ap (λ (t : ℕ). t * 2 ^ k) (mul_comm m 2)
        ∙ mul_assoc 2 m (2 ^ k)

-- On a network whose mask leaves `k` bits to the hosts the address found is the broadcast
-- address: the network of the console's own address, whatever host `l` the console is on it,
-- with all bits of the host set. It is found exactly if both calls for the addresses succeed.
pub get_broadcast_address_lem :
    (net : NetInfo) (k m l : ℕ)
    → net.my_subnet + 2 ^ k ≡ 2 ^ 32
    → net.my_ip ≡ m * 2 ^ k + l
    → l < 2 ^ k
    → get_broadcast_address net ≡ (
        if is_neg net.address_result || is_neg net.subnet_result
        then none
        else some (m * 2 ^ k + (2 ^ k - 1)))
unfolding get_broadcast_address
get_broadcast_address_lem net k m l mask ip h =
    let host : 2 ^ 32 - 1 - net.my_subnet ≡ 2 ^ k - 1 = omega (arith, pow_pos k) in
    let all : bit_or net.my_ip (2 ^ 32 - 1 - net.my_subnet) ≡ m * 2 ^ k + (2 ^ k - 1) =
      ap₂ bit_or ip host
      ∙ bit_or-bitwise (m * 2 ^ k + l) (2 ^ k - 1)
      ∙ or_low k (m * 2 ^ k + l) m l h (omega arith) in
    ground (arith, all)
