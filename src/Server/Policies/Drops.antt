-- ===== src/Server/Policies/Drops.antt =====
-- web_server/server.c: what the master may rely on, whatever policy it calls: the connections that
-- leave the queue are closed, once each, and nothing else changes but for room in the queue.
use operating_system_related.Prelude.{
  ℕ, ◌+◌, ◌<◌, ◌≡◌, refl, sym, ◌≢◌, ap, ◌∙◌, List, [], ◌∷◌, arith, length,
}
use mathlib.Core.Path.{subst}
use native.Mathlib.Decide.{ℕ_discrete}
use operating_system_related.Prelude.Int.{ℤ, count}
use operating_system_related.Server.{SharedInfo, MasterInfo, Policy, connfds}
use operating_system_related.Server.Queue.{IsValid}
use operating_system_related.Server.Queue.Refine.{contents, length-contents}
use operating_system_related.Server.Policies.{
  Outcome, wait, reaccept, dropped, drop_head, drop_random, call,
}
use operating_system_related.Server.Policies.Mask.{reject, count-select-reject}
use operating_system_related.Server.Policies.Laws.{drop_head-contents, drop_random-contents}

pub record Drops (s s' : SharedInfo) (fds : List ℤ) : Type 0 where
  pub valid : IsValid s'
  pub same_capacity : s'.queue_capacity ≡ s.queue_capacity
  pub same_list : s'.requests_list ≡ s.requests_list
  pub shrinks : s'.requests_queue.size < s.requests_queue.size
  pub balance :
      (fd : ℤ) → count fd (connfds (contents s')) + count fd fds ≡ count fd (connfds (contents s))

-- Only `block` waits, and only the others give the connection at hand up.
abbrev pub Allowed : Policy → SharedInfo → MasterInfo → Outcome → Type 0
Allowed p s m wait = p ≡ Policy.block
Allowed p s m (reaccept fd) = (p ≢ Policy.block) × (fd ≡ m.connfd)
Allowed p s m (dropped s' fds) = (p ≢ Policy.block) × Drops s s' fds

module _ {s : SharedInfo} (m : MasterInfo) (v : IsValid s) where
  open s use {requests_queue as q}

  drop_head-Drops :
      q.size ≢ 0
      → (s' : SharedInfo) × (fds : List ℤ) × (drop_head s m ≡ dropped s' fds) × Drops s s' fds
  drop_head-Drops h =
      let (r, s', e, front, cap, list, valid) = drop_head-contents m v h in
      (
        s',
        r.connfd ∷ [],
        e,
        record {
          valid = valid;
          same_capacity = cap;
          same_list = list;
          shrinks = omega (arith, ap length front, length-contents s, length-contents s');
          balance = λ fd. omega (arith, ap (λ rs. count fd (connfds rs)) front);
        },
      )

  drop_random-Drops :
      (rand : ℕ → ℕ)
      → q.size ≢ 0
      → (s' : SharedInfo) × (fds : List ℤ) × (drop_random rand s m ≡ dropped s' fds)
        × Drops s s' fds
  drop_random-Drops rand h =
      let (mask, s', e, len, half, kept, size, cap, list, valid) =
        drop_random-contents m v rand h in
      (
        s',
        connfds (reject mask (contents s)),
        e,
        record {
          valid = valid;
          same_capacity = cap;
          same_list = list;
          shrinks = omega (arith, size);
          balance = λ fd. omega (
            arith,
            ap (λ rs. count fd (connfds rs)) kept,
            count-select-reject fd mask (contents s) (len ∙ sym (length-contents s)),
          );
        },
      )

  -- With no request in the queue, the policies that drop from it drop the tail.
  drop_head-empty : q.size ≡ 0 → drop_head s m ≡ reaccept m.connfd
  unfolding drop_head
  drop_head-empty h = rw h

  drop_random-empty : (rand : ℕ → ℕ) → q.size ≡ 0 → drop_random rand s m ≡ reaccept m.connfd
  unfolding drop_random
  drop_random-empty rand h = ground arith

  to_allowed : (p : Policy) {o o' : Outcome} → o ≡ o' → Allowed p s m o' → Allowed p s m o
  to_allowed p e = subst (Allowed p s m) (sym e)

  -- Each policy keeps to what `Allowed` says.
  pub call-Allowed : (p : Policy) (rand : ℕ → ℕ) → Allowed p s m (call p rand s m)
  unfolding call
  call-Allowed Policy.block rand = refl
  call-Allowed Policy.dt rand = ((λ e. cc), refl)
  call-Allowed Policy.dh rand = elim (ℕ_discrete q.size 0) [
    | yes h ↦ to_allowed Policy.dh (drop_head-empty h) ((λ e. cc), refl)
    | no h ↦ let (s', fds, e, d) = drop_head-Drops h in to_allowed Policy.dh e ((λ e. cc), d)
  ]
  call-Allowed Policy.random rand = elim (ℕ_discrete q.size 0) [
    | yes h ↦ to_allowed Policy.random (drop_random-empty rand h) ((λ e. cc), refl)
    | no h ↦
        let (s', fds, e, d) = drop_random-Drops rand h in to_allowed Policy.random e ((λ e. cc), d)
  ]
