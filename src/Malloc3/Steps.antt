-- ===== src/Malloc3/Steps.antt =====
-- virtual_memory/malloc_3.cpp: the steps of `HeapListInsert`, by the tests that it makes.
use operating_system_related.Prelude.{
  ℕ, suc, ◌<◌, ◌≤◌, ◌≡◌, ◌≢◌, refl, ap, ◌∙◌, Bool, true, false, ◌&&◌, ◌||◌, if◌then◌else◌, ◌==◌,
  leb, ltb, arith,
}
use operating_system_related.Malloc.{Ptr}
use operating_system_related.Malloc3.{
  MallocMetadata, Memory, ended, exited, Run, then_run, ◌>>=◌, ◌>>◌, load, validate_cookie,
}
use operating_system_related.Malloc3.Lists.{
  insert_after, insert_in_front, insert_between, append_block, insert_small, insert_last,
  insert_from,
}
use operating_system_related.Malloc3.Links.{load-then}

pub if_true : {A : Type 0} (b : Bool) (x y : A) → b ≡ true → (if b then x else y) ≡ x
if_true true x y h = refl
if_true false x y h = cc

pub if_false : {A : Type 0} (b : Bool) (x y : A) → b ≡ false → (if b then x else y) ≡ y
if_false true x y h = cc
if_false false x y h = refl

module _ {S : Type 0} where
  validate-ended :
      (p : Ptr) (m : Memory S)
      → (m.headers p).cookie ≡ m.main_cookie
      → validate_cookie p m ≡ ended tt m
  unfolding validate_cookie
  validate-ended p m h =
      if_true ((p == 0) || ((m.headers p).cookie == m.main_cookie)) (ended tt m) exited
        (ground (arith, h))

  pub validate-then :
      {B : Type 0} (p : Ptr) (k : Run S B) (m : Memory S)
      → (m.headers p).cookie ≡ m.main_cookie
      → (validate_cookie p >> k) m ≡ k m
  validate-then p k m h = ap (λ o. then_run o (λ _. k)) (validate-ended p m h)

  -- Two headers are read.
  load_both :
      {B : Type 0} (p q : Ptr) (f : MallocMetadata → MallocMetadata → Run S B) (m : Memory S)
      → p ≢ 0
      → q ≢ 0
      → (load p >>= λ a. load q >>= λ b. f a b) m ≡ f (m.headers p) (m.headers q) m
  load_both p q f m np nq =
      load-then p (λ a. load q >>= λ b. f a b) m np ∙ load-then q (f (m.headers p)) m nq

  module _ (new ptr : Ptr) (m : Memory S) (n : new ≢ 0) (p : ptr ≢ 0) where
    -- The new block has the size of `ptr`, and not a greater address.
    abbrev pub is_tie : Bool
    is_tie = ((m.headers new).size == (m.headers ptr).size) && leb new ptr

    between_choice :
        insert_between new ptr m
        ≡ (if is_tie then insert_in_front new ptr else insert_after new ptr) m
    unfolding insert_between
    between_choice = load_both new ptr _ m n p

    pub between_after : is_tie ≡ false → insert_between new ptr m ≡ insert_after new ptr m
    between_after f =
        between_choice
        ∙ ap (λ (r : Run S (Unit {0})). r m)
            (if_false is_tie (insert_in_front new ptr) (insert_after new ptr) f)

    pub between_front : is_tie ≡ true → insert_between new ptr m ≡ insert_in_front new ptr m
    between_front t =
        between_choice
        ∙ ap (λ (r : Run S (Unit {0})). r m)
            (if_true is_tie (insert_in_front new ptr) (insert_after new ptr) t)

    abbrev last_tie : Bool
    last_tie = ((m.headers ptr).size == (m.headers new).size) && leb new ptr

    last_choice :
        (m.headers ptr).size ≤ (m.headers new).size
        → insert_last new ptr m
          ≡ (if last_tie then insert_in_front new ptr else append_block new ptr) m
    unfolding insert_last
    last_choice le =
        let inner : Run S (Unit {0}) =
          if last_tie then insert_in_front new ptr else append_block new ptr in
        load_both new ptr _ m n p
        ∙ ap (λ (r : Run S (Unit {0})). r m)
            (if_true (leb (m.headers ptr).size (m.headers new).size) inner (insert_small new ptr)
              (ground (arith, le)))

    pub last_append :
        (m.headers ptr).size ≤ (m.headers new).size
        → is_tie ≡ false
        → insert_last new ptr m ≡ append_block new ptr m
    last_append le f =
        last_choice le
        ∙ ap (λ (r : Run S (Unit {0})). r m)
            (if_false last_tie (insert_in_front new ptr) (append_block new ptr) (ground (arith, f)))

    pub last_front : is_tie ≡ true → insert_last new ptr m ≡ insert_in_front new ptr m
    last_front t =
        last_choice (ground (arith, t))
        ∙ ap (λ (r : Run S (Unit {0})). r m)
            (if_true last_tie (insert_in_front new ptr) (append_block new ptr) (ground (arith, t)))

    pub last_small :
        (m.headers new).size < (m.headers ptr).size → insert_last new ptr m ≡ insert_small new ptr m
    unfolding insert_last
    last_small lt =
        load_both new ptr _ m n p
        ∙ ap (λ (r : Run S (Unit {0})). r m)
            (if_false (leb (m.headers ptr).size (m.headers new).size) _ (insert_small new ptr)
              (ground (arith, lt)))

    pub from_last :
        (fuel : ℕ)
        → (m.headers ptr).next ≡ 0
        → insert_from (suc fuel) new ptr m ≡ insert_last new ptr m
    unfolding insert_from
    from_last fuel e =
        load-then ptr _ m p
        ∙ ap (λ (r : Run S (Unit {0})). r m)
            (if_true ((m.headers ptr).next == 0) (insert_last new ptr) _ (ground (arith, e)))

    -- The choice in the loop, where there is a block after `ptr`.
    abbrev choice : (fuel : ℕ) → Run S (Unit {0})
    choice fuel =
        if leb (m.headers ptr).size (m.headers new).size
          && ltb (m.headers new).size (m.headers (m.headers ptr).next).size
        then insert_between new ptr
        else (validate_cookie (m.headers ptr).next >> insert_from fuel new (m.headers ptr).next)

    from_choice :
        (fuel : ℕ)
        → (m.headers ptr).next ≢ 0
        → (m.headers new).cookie ≡ m.main_cookie
        → insert_from (suc fuel) new ptr m ≡ choice fuel m
    unfolding insert_from
    from_choice fuel r c =
        load-then ptr _ m p
        ∙ (ap (λ (r : Run S (Unit {0})). r m)
              (if_false ((m.headers ptr).next == 0) (insert_last new ptr) _ (ground (arith, r)))
            ∙ (validate-then new _ m c ∙ load_both new (m.headers ptr).next _ m n r))

    pub from_here :
        (fuel : ℕ)
        → (m.headers ptr).next ≢ 0
        → (m.headers new).cookie ≡ m.main_cookie
        → (m.headers ptr).size ≤ (m.headers new).size
        → (m.headers new).size < (m.headers (m.headers ptr).next).size
        → insert_from (suc fuel) new ptr m ≡ insert_between new ptr m
    from_here fuel r c lt lt2 =
        from_choice fuel r c
        ∙ ap (λ (r : Run S (Unit {0})). r m)
            (if_true
              (leb (m.headers ptr).size (m.headers new).size
                && ltb (m.headers new).size (m.headers (m.headers ptr).next).size)
              (insert_between new ptr) _ (ground (arith, lt, lt2)))

    pub from_next :
        (fuel : ℕ)
        → (m.headers ptr).next ≢ 0
        → (m.headers new).cookie ≡ m.main_cookie
        → (m.headers (m.headers ptr).next).cookie ≡ m.main_cookie
        → (leb (m.headers ptr).size (m.headers new).size
            && ltb (m.headers new).size (m.headers (m.headers ptr).next).size)
          ≡ false
        → insert_from (suc fuel) new ptr m ≡ insert_from fuel new (m.headers ptr).next m
    from_next fuel r c d test =
        from_choice fuel r c
        ∙ (ap (λ (r : Run S (Unit {0})). r m) (if_false _ (insert_between new ptr) _ test)
            ∙ validate-then (m.headers ptr).next (insert_from fuel new (m.headers ptr).next) m d)
