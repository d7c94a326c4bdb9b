-- ===== src/Server/Policies/Mask.antt =====
-- web_server/server.c: the mask `rand_indexes` of `drop_random`, as a choice from a list.
use operating_system_related.Prelude.{
  ℕ, zero, suc, ◌+◌, ◌<◌, ◌≡◌, refl, ap, Bool, true, false, List, [], ◌∷◌, arith, length, get_or,
  set, replicate,
}
use operating_system_related.Prelude.Int.{ℤ, count}
use operating_system_related.Server.{Request, connfds}

abbrev pub count_true : List Bool → ℕ
count_true [] = 0
count_true (true ∷ bs) = suc (count_true bs)
count_true (false ∷ bs) = count_true bs

-- The elements that a mask keeps, and those that it drops, in their order.
abbrev pub select {ℓ} : {A : Type ℓ} → List Bool → List A → List A
select [] xs = []
select (b ∷ bs) [] = []
select (true ∷ bs) (x ∷ xs) = x ∷ select bs xs
select (false ∷ bs) (x ∷ xs) = select bs xs

abbrev pub reject {ℓ} : {A : Type ℓ} → List Bool → List A → List A
reject [] xs = []
reject (b ∷ bs) [] = []
reject (true ∷ bs) (x ∷ xs) = reject bs xs
reject (false ∷ bs) (x ∷ xs) = x ∷ reject bs xs

pub count_true-replicate : (n : ℕ) → count_true (replicate n false) ≡ 0
count_true-replicate zero = refl
count_true-replicate (suc n) = count_true-replicate n

pub get_or-replicate : (n j : ℕ) → j < n → get_or (replicate n false) j true ≡ false
get_or-replicate zero j h = absurd (omega arith)
get_or-replicate (suc n) zero h = refl
get_or-replicate (suc n) (suc j) h = get_or-replicate n j (omega arith)

-- Marking an element that is not marked adds one.
pub count_true-set :
    (bs : List Bool) (i : ℕ)
    → get_or bs i true ≡ false
    → count_true (set bs i true) ≡ suc (count_true bs)
count_true-set [] i h = cc
count_true-set (true ∷ bs) zero h = cc
count_true-set (false ∷ bs) zero h = refl
count_true-set (true ∷ bs) (suc i) h = ap suc (count_true-set bs i h)
count_true-set (false ∷ bs) (suc i) h = count_true-set bs i h

pub length-select {ℓ} :
    {A : Type ℓ} (bs : List Bool) (xs : List A)
    → length bs ≡ length xs
    → length (select bs xs) ≡ count_true bs
length-select [] xs h = refl
length-select (b ∷ bs) [] h = absurd (omega arith)
length-select (true ∷ bs) (x ∷ xs) h = ap suc (length-select bs xs (omega arith))
length-select (false ∷ bs) (x ∷ xs) h = length-select bs xs (omega arith)

-- A mask splits the connections of a list.
pub count-select-reject :
    (fd : ℤ) (bs : List Bool) (xs : List Request)
    → length bs ≡ length xs
    → count fd (connfds (select bs xs)) + count fd (connfds (reject bs xs)) ≡ count fd (connfds xs)
count-select-reject fd [] [] h = refl
count-select-reject fd [] (x ∷ xs) h = absurd (omega arith)
count-select-reject fd (b ∷ bs) [] h = absurd (omega arith)
count-select-reject fd (true ∷ bs) (x ∷ xs) h =
    omega (arith, count-select-reject fd bs xs (omega arith))
count-select-reject fd (false ∷ bs) (x ∷ xs) h =
    omega (arith, count-select-reject fd bs xs (omega arith))
