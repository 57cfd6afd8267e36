-- ===== src/Base/Words.antt =====
-- size_t, the unsigned 64-bit word in which strides, offsets and counts are computed.
use Prim.Native.Nat.{ℕ, ◌+◌, ◌*◌, ◌/◌, ◌%◌, ◌^◌, ◌<◌}
use native.Mathlib.Nat.{mul-add-mod_self_left, mul_comm, div-add-mod}
use mathlib.Core.Path.{◌≡◌, sym, ap, ◌∙◌}
use native.Mathlib.Omega.{arith}

abbrev pub size_mod : ℕ
size_mod = 2 ^ 64

-- The value of a size_t that an unbounded computation would have made `n`.
unfoldable pub wrap : ℕ → ℕ
wrap n = n % size_mod

pub wrap_small : {n : ℕ} → n < size_mod → wrap n ≡ n
unfolding wrap
wrap_small h = omega arith

pub wrap-wrap : (n : ℕ) → wrap (wrap n) ≡ wrap n
unfolding wrap
wrap-wrap n = omega arith

pub wrap-add_left : (a b : ℕ) → wrap (wrap a + b) ≡ wrap (a + b)
unfolding wrap
wrap-add_left a b = omega arith

pub wrap-add_right : (a b : ℕ) → wrap (a + wrap b) ≡ wrap (a + b)
unfolding wrap
wrap-add_right a b = omega arith

mod-mul_left : (a b m : ℕ) → (a % m * b) % m ≡ (a * b) % m
mod-mul_left a b m =
    let split : a * b ≡ m * (a / m * b) + a % m * b =
      omega (arith, ap (λ (t : ℕ). t * b) (div-add-mod a m)) in
    sym (ap (λ (t : ℕ). t % m) split ∙ mul-add-mod_self_left m (a / m * b) (a % m * b))

pub wrap-mul_left : (a b : ℕ) → wrap (wrap a * b) ≡ wrap (a * b)
unfolding wrap
wrap-mul_left a b = mod-mul_left a b size_mod

pub wrap-mul_right : (a b : ℕ) → wrap (a * wrap b) ≡ wrap (a * b)
wrap-mul_right a b = rw (mul_comm a (wrap b), mul_comm a b) (wrap-mul_left b a)

pub wrap-lt : (n : ℕ) → wrap n < size_mod
unfolding wrap
wrap-lt n = omega arith

-- One step of a sum of products.
pub wrap-add_mul : (a b r : ℕ) → wrap (wrap a + wrap b * r) ≡ wrap (a + b * r)
wrap-add_mul a b r =
    wrap-add_left a (wrap b * r)
    ∙ sym (wrap-add_right a (wrap b * r))
    ∙ ap (λ t. wrap (a + t)) (wrap-mul_left b r)
    ∙ wrap-add_right a (b * r)

pub ruleset wrap_laws = (wrap-wrap, wrap-add_left, wrap-add_right, wrap-mul_left, wrap-mul_right)
