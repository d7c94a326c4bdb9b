-- ===== src/Server/Queue/Window.antt =====
-- The part of a ring buffer that is in use, as a list, and how writes change it.
use operating_system_related.Prelude.{
  ℕ, zero, suc, ◌+◌, ◌-◌, ◌%◌, ◌≤◌, ◌<◌, ◌≡◌, refl, sym, ◌≢◌, ap, ◌∙◌, List, [], ◌∷◌, ◌++◌, arith,
  length, get_or, set, get_or-set_self, get_or-set_ne,
}
use mathlib.Core.Path.{ap₂}
use native.Mathlib.Numerals.{add-one}
use native.Mathlib.Nat.{mod-eq_of_lt, add-zero, mod-mod, suc-mod}

-- Slots whose distance is less than `cap` are different.
pub mod-ne_of_near : (cap a b : ℕ) → a < b → b < a + cap → a % cap ≢ b % cap
mod-ne_of_near cap a b h k e = grind arith

pub mod-lt_cap : (cap a : ℕ) → 0 < cap → a % cap < cap
mod-lt_cap cap a h = omega arith

suc-mod-eq : (cap a b : ℕ) → a % cap ≡ b % cap → suc a % cap ≡ suc b % cap
suc-mod-eq cap a b e = suc-mod a cap ∙ ap (λ k. suc k % cap) e ∙ sym (suc-mod b cap)

module _ {ℓ} {A : Type ℓ} (d : A) (cap : ℕ) where
  -- The `n` elements from slot `o % cap` on.
  abbrev pub window : List A → ℕ → ℕ → List A
  window items o zero = []
  window items o (suc n) = get_or items (o % cap) d ∷ window items (suc o) n

  pub length-window : (items : List A) (o n : ℕ) → length (window items o n) ≡ n
  length-window items o zero = refl
  length-window items o (suc n) = ap suc (length-window items (suc o) n)

  -- A write to a slot outside the window does not show.
  pub window-set_ne :
      (items : List A) (p o n : ℕ) (x : A)
      → p < o
      → o + n ≤ p + cap
      → window (set items (p % cap) x) o n ≡ window items o n
  window-set_ne items p o zero x h k = refl
  window-set_ne items p o (suc n) x h k =
      ap₂ ◌∷◌ (get_or-set_ne items (p % cap) (o % cap) x d (mod-ne_of_near cap p o h (omega arith)))
        (window-set_ne items p (suc o) n x (omega arith) (omega arith))

  -- A write just behind the window extends it.
  pub window-set_next :
      (items : List A) (o n p : ℕ) (x : A)
      → 0 < cap
      → length items ≡ cap
      → n < cap
      → p ≡ o + n
      → window (set items (p % cap) x) o (suc n) ≡ window items o n ++ x ∷ []
  window-set_next items o zero p x pos len h e =
      rw (e, add-zero)
        (ap (λ y. y ∷ [])
          (get_or-set_self items (o % cap) x d (omega (arith, mod-lt_cap cap o pos))))
  window-set_next items o (suc n) p x pos len h e =
      ap₂ ◌∷◌
        (get_or-set_ne items (p % cap) (o % cap) x d
          (λ q. mod-ne_of_near cap o p (omega arith) (omega arith) (sym q)))
        (window-set_next items (suc o) n p x pos len (omega arith) (omega arith))

  window_of_mod_eq :
      (items : List A) (a b n : ℕ) → a % cap ≡ b % cap → window items a n ≡ window items b n
  window_of_mod_eq items a b zero e = refl
  window_of_mod_eq items a b (suc n) e =
      ap₂ ◌∷◌ (ap (λ k. get_or items k d) e)
        (window_of_mod_eq items (suc a) (suc b) n (suc-mod-eq cap a b e))

  -- A window may be named by the reduced offset.
  pub window-mod : (items : List A) (o n : ℕ) → window items (o % cap) n ≡ window items o n
  window-mod items o n = window_of_mod_eq items (o % cap) o n (mod-mod o cap)

  -- The head of a window that is not empty, and the window behind it, as the code steps.
  pub window-first :
      (items : List A) (o n : ℕ)
      → o < cap
      → n ≢ 0
      → window items o n ≡ get_or items o d ∷ window items ((o + 1) % cap) (n - 1)
  window-first items o zero h ne = absurd (ne refl)
  window-first items o (suc n) h ne =
      ap₂ ◌∷◌ (ap (λ k. get_or items k d) (mod-eq_of_lt h)) (
        sym (window-mod items (o + 1) (suc n - 1) ∙ ap₂ (window items) (omega arith) (omega arith)))

  -- The same, with the slot and the length as the code computes them.
  pub window-set_tail :
      (items : List A) (o n t : ℕ) (x : A)
      → 0 < cap
      → length items ≡ cap
      → n < cap
      → t ≡ (o + n) % cap
      → window (set items t x) o (n + 1) ≡ window items o n ++ x ∷ []
  window-set_tail items o n t x pos len h e =
      rw (e, add-one) (window-set_next items o n (o + n) x pos len h refl)
