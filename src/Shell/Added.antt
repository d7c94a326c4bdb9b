-- ===== src/Shell/Added.antt =====
-- skeleton_smash/Commands.cpp: what `addJob` does to the list.
use operating_system_related.Prelude.{
  ℕ, ◌≡◌, refl, sym, ap, ◌∙◌, Bool, true, false, ◌||◌, [], ◌∷◌, ◌++◌, inl, inr, ◌⊎◌, if◌then◌else◌,
}
use mathlib.Core.Path.{subst}
use operating_system_related.Shell.State.{
  JobState, Command, JobEntry, job_of, System, Shell, ended, then_act,
}
use operating_system_related.Shell.Jobs.{new_job_id, insert_job, is_foreground, job_state}
use operating_system_related.Shell.Processes.{add_job}
use operating_system_related.Shell.Order.{IsOrdered, append-IsOrdered, map_insert-new}
use operating_system_related.Shell.Finished.{
  unfinished, after_asking, remove_finished_jobs-Leaves, unfinished-IsAbove,
}

module _ {S : Type 0} (system : System S) where
  -- The job of the process is the last of the list, behind the jobs that were left, with an id of its
  -- own; unless it is stopped or in the background, it is the one in the foreground.
  pub record IsAdded (cmd : Command) (pid : ℕ) (stop : Bool) (s t : Shell S) : Type 0 where
    pub id : ℕ
    pub entry : JobEntry
    pub last : t.jobs_list.jobs ≡ unfinished system s.system s.jobs_list.jobs ++ (id, entry) ∷ []
    pub ordered : IsOrdered t.jobs_list.jobs
    pub of_process : entry.pid ≡ pid
    pub of_command : entry.cmd ≡ cmd
    pub with_state : entry.state ≡ job_state stop cmd
    pub entered : entry.entry_time ≡ system.get_time t.system
    pub pointed : ((stop || cmd.in_background) ≡ true) ⊎ (t.jobs_list.foreground_job ≡ job_of id)

  state_lem :
      (stop : Bool) (cmd : Command)
      → ((stop || cmd.in_background) ≡ true) ⊎ (is_foreground (job_state stop cmd) ≡ true)
  state_lem true cmd = inl refl
  state_lem false cmd = by_background cmd.in_background
    where
      by_background :
          (b : Bool)
          → (b ≡ true)
            ⊎ (is_foreground (if b then JobState.background else JobState.foreground) ≡ true)
      by_background true = inl refl
      by_background false = inr refl

  insert-IsAdded :
      (cmd : Command) (pid : ℕ) (stop : Bool) (s u : Shell S)
      → u.jobs_list.jobs ≡ unfinished system s.system s.jobs_list.jobs
      → IsOrdered (unfinished system s.system s.jobs_list.jobs)
      → (t : Shell S) × (insert_job cmd pid (job_state stop cmd) (system.get_time u.system) u
          ≡ ended tt t)
        × (t.system ≡ u.system)
        × IsAdded cmd pid stop s t
  unfolding insert_job
  insert-IsAdded cmd pid stop s u e o =
      let jobs = u.jobs_list.jobs in
      let entry : JobEntry = record {
        pid = pid;
        state = job_state stop cmd;
        entry_time = system.get_time u.system;
        cmd = cmd;
      } in
      let ordered = subst IsOrdered (sym e) o in
      let (inserted, absent) = map_insert-new entry jobs ordered in
      (
        _,
        refl,
        refl,
        record {
          id = new_job_id jobs;
          entry = entry;
          last = inserted ∙ ap (λ js. js ++ (new_job_id jobs, entry) ∷ []) e;
          ordered = subst IsOrdered (sym inserted) (append-IsOrdered entry jobs ordered);
          of_process = refl;
          of_command = refl;
          with_state = refl;
          entered = refl;
          pointed = elim (state_lem stop cmd) [ inl t ↦ inl t | inr f ↦ inr (rw (absent, f) refl) ];
        },
      )

  -- `addJob`, for a list with its ids in order and for every system, ends. First the finished jobs are
  -- removed; then the job of the process stands last in the list, behind those left, with an id greater
  -- than theirs, with the command, the state and the time of now. If it is neither stopped nor in the
  -- background it is the job in the foreground.
  pub add_job-IsAdded :
      (cmd : Command) (pid : ℕ) (stop : Bool) (s : Shell S)
      → IsOrdered s.jobs_list.jobs
      → (t : Shell S) × (add_job system cmd pid stop s ≡ ended tt t)
        × (t.system ≡ after_asking system s.system s.jobs_list.jobs)
        × IsAdded cmd pid stop s t
  unfolding add_job
  add_job-IsAdded cmd pid stop s o =
      let (u, x, y, z) = remove_finished_jobs-Leaves system s o in
      let (t, e, same, added) =
        insert-IsAdded cmd pid stop s u y
          (unfinished-IsAbove system s.system 0 s.jobs_list.jobs o) in
      (
        t,
        ap
              (λ o.
                then_act o
                  (λ _ r. insert_job cmd pid (job_state stop cmd) (system.get_time r.system) r))
              x
            ∙ e,
        same ∙ z,
        added,
      )
