-- ===== src/Server/Policies/Compact.antt =====
-- web_server/server.c: the loop of `drop_random` that moves the picked requests to the head of the
-- ring, in place, against the choice of the same requests from the queue as a list.
use operating_system_related.Prelude.{
  ℕ, suc, ◌+◌, ◌%◌, ◌≤◌, ◌<◌, ◌≡◌, refl, sym, ap, ◌∙◌, Bool, true, false, List, [], ◌∷◌, ◌++◌,
  arith, length, get_or, set, length-set,
}
use mathlib.Core.List.{append-nil, append_assoc}
use native.Mathlib.Nat.{mod-add-mod, add-zero}
use mathlib.Core.Path.{ap₂}
use operating_system_related.Prelude.Int.{ℤ}
use operating_system_related.Server.{Request, no_request, connfds}
use operating_system_related.Server.Queue.Window.{window, window-set_tail, window-set_ne}
use operating_system_related.Server.Policies.{compact}
use operating_system_related.Server.Policies.Mask.{count_true, select, reject}

module _ (cap head : ℕ) where
  abbrev pub requests : List Request → ℕ → ℕ → List Request
  requests = window no_request cap

  -- After the loop over `picks` from `i` on, with `kept` requests at the head so far.
  pub record Compacted (picks : List Bool) (i kept : ℕ) (items : List Request)
      (out : List Request × ℕ × List ℤ) : Type 0 where
    pub storage : length out.0 ≡ cap
    pub tail_at : out.1 ≡ (head + (kept + count_true picks)) % cap
    pub chosen :
        requests out.0 head (kept + count_true picks)
        ≡ requests items head kept ++ select picks (requests items (head + i) (length picks))
    pub others : out.2 ≡ connfds (reject picks (requests items (head + i) (length picks)))

  one_more : (kept n : ℕ) → kept + 1 + n ≡ kept + suc n
  one_more kept n = omega arith

  one_on : (i : ℕ) → head + (i + 1) ≡ suc (head + i)
  one_on i = omega arith

  next_tail :
      (kept tail : ℕ) → tail ≡ (head + kept) % cap → (tail + 1) % cap ≡ (head + (kept + 1)) % cap
  next_tail kept tail at =
      ap (λ k. (k + 1) % cap) at ∙ mod-add-mod (head + kept) cap 1 ∙ ap (λ k. k % cap) (omega arith)

  -- A write at the tail leaves the requests that the loop has not reached.
  later :
      (i kept tail n : ℕ) (items : List Request) (x : Request)
      → tail ≡ (head + kept) % cap
      → kept ≤ i
      → i + suc n ≤ cap
      → requests (set items tail x) (head + (i + 1)) n ≡ requests items (suc (head + i)) n
  later i kept tail n items x at le fit =
      ap₂ (λ t o. requests (set items t x) o n) at (one_on i)
      ∙ window-set_ne no_request cap items (head + kept) (suc (head + i)) n x (omega arith)
          (omega arith)

  pub compact-Compacted :
      (picks : List Bool) (i kept tail : ℕ) (items : List Request)
      → 0 < cap
      → length items ≡ cap
      → tail ≡ (head + kept) % cap
      → kept ≤ i
      → i + length picks ≤ cap
      → Compacted picks i kept items (compact cap head picks i tail items)
  unfolding compact
  compact-Compacted [] i kept tail items pos len at le fit = record {
    storage = len;
    tail_at = at ∙ ap (λ k. (head + k) % cap) (omega arith);
    chosen = ap (requests items head) (add-zero kept) ∙ sym (append-nil (requests items head kept));
    others = refl;
  }
  compact-Compacted (true ∷ picks) i kept tail items pos len at le fit =
      let x = get_or items ((head + i) % cap) no_request in
      let rest =
        compact-Compacted picks (i + 1) (kept + 1) ((tail + 1) % cap) (set items tail x) pos
          (length-set items tail x ∙ len) (next_tail kept tail at) (omega arith) (omega arith) in
      record {
        storage = rest.storage;
        tail_at = rest.tail_at ∙ ap (λ k. (head + k) % cap) (one_more kept (count_true picks));
        chosen =
            ap
              (requests (compact cap head picks (i + 1) ((tail + 1) % cap) (set items tail x)).0
                head)
              (sym (one_more kept (count_true picks)))
            ∙ rest.chosen
            ∙ ap₂ (λ front back. front ++ select picks back)
                (window-set_tail no_request cap items head kept tail x pos len (omega arith) at)
                (later i kept tail (length picks) items x at le (omega arith))
            ∙ append_assoc (requests items head kept) (x ∷ [])
                (select picks (requests items (suc (head + i)) (length picks)));
        others =
            rest.others
            ∙ ap (λ back. connfds (reject picks back))
                (later i kept tail (length picks) items x at le (omega arith));
      }
  compact-Compacted (false ∷ picks) i kept tail items pos len at le fit =
      let x = get_or items ((head + i) % cap) no_request in
      let rest =
        compact-Compacted picks (i + 1) kept tail items pos len at (omega arith) (omega arith) in
      let next = ap (λ o. requests items o (length picks)) (one_on i) in
      record {
        storage = rest.storage;
        tail_at = rest.tail_at;
        chosen = rest.chosen ∙ ap (λ back. requests items head kept ++ select picks back) next;
        others =
            ap (λ fds. x.connfd ∷ fds)
              (rest.others ∙ ap (λ back. connfds (reject picks back)) next);
      }
