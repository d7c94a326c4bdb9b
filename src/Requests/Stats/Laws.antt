-- ===== src/Requests/Stats/Laws.antt =====
-- web_server/request.c: what a client reads back from the lines of `buf_stats`.
use operating_system_related.Prelude.{
  ℕ, zero, suc, ◌+◌, ◌-◌, ◌*◌, ◌≡◌, refl, ap, ◌∙◌, [], ◌∷◌, arith, length,
}
use operating_system_related.Prelude.Text.{Text}

-- The number that a text of digits stands for, after others that stand for `front`.
unfoldable pub read_digits : (front : ℕ) → Text → ℕ
read_digits front [] = front
read_digits front (c ∷ cs) = read_digits (10 * front + (c - b'0')) cs

from_zero : (d : ℕ) → 0 + d ≡ d
from_zero d = omega arith

-- `front` with so many digits 0 after it.
unfoldable shift : (places front : ℕ) → ℕ
shift zero front = front
shift (suc places) front = shift places (10 * front)

shift-add : (k a b : ℕ) → shift k (a + b) ≡ shift k a + shift k b
unfolding shift
shift-add zero a b = refl
shift-add (suc k) a b = ap (shift k) (omega arith) ∙ shift-add k (10 * a) (10 * b)

sum_of : (r a b s t u : ℕ) → r ≡ a + u → a ≡ b + s → t ≡ s + u → r ≡ b + t
sum_of r a b s t u h k l = omega (arith, h, k, l)

read_digits-shift :
    (front : ℕ) (xs : Text) → read_digits front xs ≡ shift (length xs) front + read_digits 0 xs
unfolding shift read_digits
read_digits-shift front [] = omega arith
read_digits-shift front (c ∷ cs) =
    let d = c - b'0' in
    sum_of _ (shift (length cs) (10 * front + d)) _ (shift (length cs) d) _ _
      (read_digits-shift (10 * front + d) cs) (shift-add (length cs) (10 * front) d)
      (ap (λ k. read_digits k cs) (from_zero d) ∙ read_digits-shift d cs)
