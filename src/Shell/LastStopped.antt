-- ===== src/Shell/LastStopped.antt =====
-- skeleton_smash/Commands.cpp: the stopped job that `bg` resumes.
use operating_system_related.Prelude.{
  ℕ, ◌≤◌, ◌<◌, ◌≡◌, refl, sym, ◌∙◌, Bool, true, false, Option, none, some, List, [], ◌∷◌, inl, inr,
  ◌⊎◌, ◌==◌, arith, Bool-cases, ==_iff,
}
use mathlib.Core.Path.{subst}
use operating_system_related.Shell.State.{JobEntry, Job, System, Shell}
use operating_system_related.Shell.Jobs.{is_stopped, find_job, last_stopped_of, or_this}
use operating_system_related.Shell.Processes.{get_last_stopped_job}
use operating_system_related.Shell.Order.{IsAbove, IsOrdered}
use operating_system_related.Shell.Finished.{
  Leaves, unfinished, after_asking, look-Leaves, unfinished-IsAbove,
}

-- The stopped job with the greatest id, if there is a stopped job.
abbrev pub IsLastStopped : List Job → Option Job → Type 0
IsLastStopped jobs none =
    (id : ℕ) (e : JobEntry) → find_job id jobs ≡ some e → is_stopped e.state ≡ false
IsLastStopped jobs (some (i, e)) =
    (find_job i jobs ≡ some e)
    × (is_stopped e.state ≡ true)
    × ((id : ℕ) (x : JobEntry) → find_job id jobs ≡ some x → is_stopped x.state ≡ true → id ≤ i)

find-gt :
    (n id : ℕ) (x : JobEntry) (jobs : List Job)
    → IsAbove n jobs
    → find_job id jobs ≡ some x
    → n < id
unfolding find_job
find-gt n id x [] h e = cc
find-gt n id x ((i, y) ∷ jobs) (lt, h) e = elim (Bool-cases (i == id)) [
  | inl t ↦ subst (λ k. n < k) ((==_iff i id).0 t) lt
  | inr f ↦ omega (arith, lt, find-gt i id x jobs h (sym (rw f refl) ∙ e))
]

some_injective : (e x : JobEntry) → some e ≡ some x → e ≡ x
some_injective e x k = cc

not_both : (b : Bool) → b ≡ true → b ≡ false → ⊥
not_both b t f = cc

find-cons :
    (id i : ℕ) (e x : JobEntry) (jobs : List Job)
    → find_job id ((i, e) ∷ jobs) ≡ some x
    → ((i ≡ id) × (e ≡ x)) ⊎ (find_job id jobs ≡ some x)
unfolding find_job
find-cons id i e x jobs h = elim (Bool-cases (i == id)) [
  | inl t ↦ inl ((==_iff i id).0 t, some_injective e x (sym (rw t refl) ∙ h))
  | inr f ↦ inr (sym (rw f refl) ∙ h)
]

find_self : (i : ℕ) (e : JobEntry) (jobs : List Job) → find_job i ((i, e) ∷ jobs) ≡ some e
unfolding find_job
find_self i e jobs = rw ((==_iff i i).1 refl) refl

find-behind :
    (id i : ℕ) (e : JobEntry) (jobs : List Job)
    → i < id
    → find_job id ((i, e) ∷ jobs) ≡ find_job id jobs
unfolding find_job
find-behind id i e jobs lt = let ne : (i == id) ≡ false = ground (arith, lt) in rw ne refl

-- A later job is stopped.
later-IsLastStopped :
    (i j : ℕ) (e y : JobEntry) (jobs : List Job)
    → IsAbove i jobs
    → IsLastStopped jobs (some (j, y))
    → IsLastStopped ((i, e) ∷ jobs) (some (j, y))
later-IsLastStopped i j e y jobs h (found, stop, last) =
    let lt = find-gt i j y jobs h found in
    (
      find-behind j i e jobs lt ∙ found,
      stop,
      λ id x f st. elim (find-cons id i e x jobs f) [
        | inl (same, eq) ↦ omega (arith, lt, same)
        | inr f ↦ last id x f st
      ],
    )

-- No later job is stopped, and this one is.
here-IsLastStopped :
    (i : ℕ) (e : JobEntry) (jobs : List Job)
    → is_stopped e.state ≡ true
    → IsLastStopped jobs none
    → IsLastStopped ((i, e) ∷ jobs) (some (i, e))
here-IsLastStopped i e jobs stop others = (
  find_self i e jobs,
  stop,
  λ id x f st. elim (find-cons id i e x jobs f) [
    | inl (same, eq) ↦ omega (arith, same)
    | inr f ↦ absurd (not_both (is_stopped x.state) st (others id x f))
  ],
)

nowhere-IsLastStopped :
    (i : ℕ) (e : JobEntry) (jobs : List Job)
    → is_stopped e.state ≡ false
    → IsLastStopped jobs none
    → IsLastStopped ((i, e) ∷ jobs) none
nowhere-IsLastStopped i e jobs go others id x f = elim (find-cons id i e x jobs f) [
  | inl (same, eq) ↦ subst (λ (k : JobEntry). is_stopped k.state ≡ false) eq go
  | inr f ↦ others id x f
]

step-IsLastStopped :
    (i : ℕ) (e : JobEntry) (jobs : List Job) (r : Option Job)
    → IsAbove i jobs
    → IsLastStopped jobs r
    → IsLastStopped ((i, e) ∷ jobs) (or_this i e r)
unfolding or_this
step-IsLastStopped i e jobs (some (j, y)) h last = later-IsLastStopped i j e y jobs h last
step-IsLastStopped i e jobs none h last = elim (Bool-cases (is_stopped e.state)) [
  | inl t ↦ rw t (here-IsLastStopped i e jobs t last)
  | inr f ↦ rw f (nowhere-IsLastStopped i e jobs f last)
]

last_stopped_of-IsLastStopped :
    (n : ℕ) (jobs : List Job) → IsAbove n jobs → IsLastStopped jobs (last_stopped_of jobs)
unfolding last_stopped_of find_job
last_stopped_of-IsLastStopped n [] h = λ id e f. cc
last_stopped_of-IsLastStopped n ((i, e) ∷ jobs) (lt, h) =
    step-IsLastStopped i e jobs (last_stopped_of jobs) h (last_stopped_of-IsLastStopped i jobs h)

module _ {S : Type 0} (system : System S) where
  -- For every system `getLastStoppedJob` ends for a list with its ids in order. The jobs whose process
  -- has not finished by the answers of `waitpid` are left. Its result is the stopped job among these
  -- with the greatest id, or NULL if none of these is stopped.
  pub get_last_stopped_job-IsLastStopped :
      (s : Shell S)
      → IsOrdered s.jobs_list.jobs
      → let jobs = unfinished system s.system s.jobs_list.jobs in
        (job : Option Job) × Leaves system jobs
          (after_asking system s.system s.jobs_list.jobs)
          job
          (get_last_stopped_job system s)
        × IsLastStopped jobs job
  unfolding get_last_stopped_job
  get_last_stopped_job-IsLastStopped s o =
      let jobs = unfinished system s.system s.jobs_list.jobs in
      (
        last_stopped_of jobs,
        look-Leaves system last_stopped_of s o,
        last_stopped_of-IsLastStopped 0 jobs
            (unfinished-IsAbove system s.system 0 s.jobs_list.jobs o),
      )
