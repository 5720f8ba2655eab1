-- ===== src/Apps/ProcServer/Serving.antt =====
-- Whatever requests it gets, the process server keeps the kernel's table consistent.
use egos_project.Prelude.{
  ℕ, ◌+◌, ◌-◌, ◌<◌, ◌≡◌, ◌≢◌, ap, sym, ◌∙◌, inl, inr, arith, Bool, ◌&&◌, ◌==◌, leb, if◌then◌else◌,
  Option, some, Run, ok, fatal, undefined, invalid_request, >>=-ok, ok-injective, Bool-cases,
  Option-cases, process_limit,
}
use egos_project.Machine.{max_nprocess, pid2idx}
use egos_project.Earth.Mmu.{Mmu}
use egos_project.Grass.Process.{
  Process, ready, running, unused, Table, Kernel, curr_pid, with_mmu, with_status, gpid_process,
  gpid_user_start, proc_alloc, proc_free, proc_free_all, proc_set_status, proc_set_ready,
  proc_sleep, proc_on_sleep,
}
use egos_project.Grass.Invariant.{IsConsistent}
use egos_project.Grass.Invariant.Yield.{put_status}
use egos_project.Grass.Invariant.Rendezvous.{IsLive}
use egos_project.Grass.Invariant.System.{Taken, loaded, proc_alloc_lem}
use egos_project.Grass.Invariant.Free.{cleared, proc_free-IsLive, proc_free_all-IsLive}
use egos_project.Loader.{word_of}
use egos_project.Loader.App.{elf_load}
use egos_project.Apps.Shell.{ProcRequest}
use egos_project.Apps.Servers.{
  Bytes, Service, DirRequest, DirReply, FileRequest, FileReply, dir_lookup,
}
use egos_project.Apps.DirServer.{c_string}
use egos_project.Apps.Shell.{cmd_arg_len}
use egos_project.Apps.ProcServer.{
  ProcOp, proc_spawn_op, proc_exit_op, proc_sleep_op, proc_killall_op, unknown_op, bin_name,
  as_unsigned, argv_bytes, in_background, ProcServer, app_read, spawn_file, app_spawn,
  handle_request,
}

-- The server is the process that runs, in a consistent table.
abbrev pub IsServing : Kernel → Type 0
IsServing k = IsLive k × (curr_pid k ≡ gpid_process)

ready-IsConsistent :
    (f : Table) (c i : ℕ)
    → IsConsistent f c
    → (f i).pid ≡ i + 1
    → IsConsistent (put_status f i ready) c
ready-IsConsistent f c i h p = record {
  current = h.current;
  pids = λ j hj. ground (arith, h.pids j hj);
  one_running = λ j hj r. ground (arith, h.one_running j hj);
  no_missed = λ a b ha hb s. ground (arith, h.no_missed a b ha hb);
}

set_ready-state :
    (pid : ℕ) (k k' : Kernel) → proc_set_ready pid k ≡ ok k' → k' ≡ with_status k (pid - 1) ready
unfolding proc_set_ready proc_set_status pid2idx
set_ready-state pid k k' h = ground arith

-- A new process that is made ready leaves the server serving, whatever its pages hold.
started-IsServing :
    (k k1 k2 : Kernel) (pid : ℕ) (mmu : Mmu)
    → IsServing k
    → proc_alloc k ≡ ok (pid, k1)
    → proc_set_ready pid (with_mmu k1 mmu) ≡ ok k2
    → IsServing k2
started-IsServing k k1 k2 pid mmu (live, self) taken set = elim (proc_alloc_lem k live) [
  | inl (full, _) ↦ absurd (stopped (sym full ∙ taken))
  | inr (i, t, result, (h, on)) ↦
      let both : ◌≡◌ {A = ℕ × Kernel} (i + 1, record k { proc_set = loaded k.proc_set i })
          (pid, k1) =
        ok-injective (sym result ∙ taken) in
      let new : i + 1 ≡ pid = ap (λ (x : ℕ × Kernel). x.0) both in
      let k1_eq : record k { proc_set = loaded k.proc_set i } ≡ k1 =
        ap (λ (x : ℕ × Kernel). x.1) both in
      let state = set_ready-state pid (with_mmu k1 mmu) k2 set in
      let slot : i + 1 - 1 ≡ i = omega arith in
      let other : i ≢ k.proc_curr_idx = not_current i t live in
      rw (state, ← new, ← k1_eq, slot)
        (
          (
            ready-IsConsistent (loaded k.proc_set i) k.proc_curr_idx i h (ground arith),
            ground (arith, on),
          ),
          ground (arith, self),
        )
]
  where
    stopped : ◌≡◌ {A = Run (ℕ × Kernel)} (fatal process_limit) (ok (pid, k1)) → ⊥
    stopped e = cc

    not_current : (i : ℕ) → Taken k.proc_set i → IsLive k → i ≢ k.proc_curr_idx
    not_current i t l e = ground (arith, t.free, l.1)

-- The process that runs is the one that ran, if its slot has not changed.
same_process :
    (k k' : Kernel)
    → IsLive k
    → IsLive k'
    → k'.proc_set k'.proc_curr_idx ≡ k.proc_set k'.proc_curr_idx
    → curr_pid k ≡ gpid_process
    → curr_pid k' ≡ gpid_process
same_process k k' (h, on) (h', on') kept self =
    let still : (k.proc_set k'.proc_curr_idx).status ≡ running =
      ap (λ (x : Process). x.status) (sym kept) ∙ on' in
    let here = h.one_running k'.proc_curr_idx h'.current still in
    ap (λ (x : Process). x.pid) kept ∙ ap (λ i. (k.proc_set i).pid) here ∙ self

sleep-same : (pid time : ℕ) (k k' : Kernel) → proc_sleep pid time k ≡ ok k' → k' ≡ k
unfolding proc_sleep proc_on_sleep pid2idx
sleep-same pid time k k' h = ground arith

freed-IsServing :
    (pid : ℕ) (k k' : Kernel)
    → IsServing k
    → pid ≢ gpid_process
    → proc_free pid k ≡ ok k'
    → IsServing k' × ((k'.proc_set (pid - 1)).status ≡ unused)
freed-IsServing pid k k' (live, self) other h =
    let (live', gone, kept) = proc_free-IsLive pid k k' live (λ e. other (e ∙ self)) h in
    ((live', same_process k k' live live' serves self), gone)
  where
    not_gone :
        (k'.proc_set k'.proc_curr_idx).status ≡ unused
        → (k'.proc_set k'.proc_curr_idx).status ≡ running
        → ⊥
    not_gone a b = ground (arith, a, b)

    serves : k'.proc_set k'.proc_curr_idx ≡ k.proc_set k'.proc_curr_idx
    serves =
        let (live', gone, kept) = proc_free-IsLive pid k k' live (λ e. other (e ∙ self)) h in
        kept k'.proc_curr_idx (λ e. not_gone (ap (λ j. (k'.proc_set j).status) e ∙ gone) live'.1)

all_freed-IsServing :
    (k k' : Kernel)
    → IsServing k
    → proc_free_all k ≡ ok k'
    → IsServing k' × ((j : ℕ) → j < max_nprocess → k'.proc_set j ≡ cleared (k.proc_set j))
all_freed-IsServing k k' (live, self) h =
    let (live', all) = proc_free_all-IsLive k k' live (omega (arith, self)) h in
    let kept = all k'.proc_curr_idx live'.0.current in
    (
      (
        live',
        same_process k k' live live'
            (kept
              ∙ not_cleared (k.proc_set k'.proc_curr_idx)
                  (ap (λ (x : Process). x.status) (sym kept) ∙ live'.1))
            self,
      ),
      all,
    )
  where
    not_cleared : (p : Process) → (cleared p).status ≡ running → cleared p ≡ p
    not_cleared p e = ground arith

module _ (dirs : Service DirRequest DirReply) (files : Service FileRequest FileReply)
    (unset : Bytes) where
  abbrev Server : Type 0
  Server = ProcServer dirs files unset

  spawn_file-IsServing :
      (app_ino : ℕ) (req : ProcRequest) (s s' : Server) (started : Bool)
      → IsServing s.kernel
      → spawn_file dirs files unset app_ino req s ≡ ok (started, s')
      → IsServing s'.kernel
  unfolding spawn_file
  spawn_file-IsServing app_ino req s s' started serving h =
      let ((pid, k1), taken, h1) = >>=-ok (proc_alloc s.kernel) _ h in
      let (background, _, h2) = >>=-ok (in_background req) _ h1 in
      let (mmu, _, h3) =
        >>=-ok
          (elf_load pid (if background then req.argc - 1 else req.argc)
            (app_read dirs files unset app_ino s.file_state) (some (argv_bytes req)) k1.mmu)
          _ h2 in
      let (k2, set, h4) = >>=-ok (proc_set_ready pid (with_mmu k1 mmu)) _ h3 in
      let same : k2 ≡ s'.kernel = ap (λ (x : Bool × Server). x.1.kernel) (ok-injective h4) in
      rw (← same) (started-IsServing s.kernel k1 k2 pid mmu serving taken set)

  app_spawn-IsServing :
      (req : ProcRequest) (s s' : Server) (started : Bool)
      → IsServing s.kernel
      → app_spawn dirs files unset req s ≡ ok (started, s')
      → IsServing s'.kernel
  unfolding app_spawn
  app_spawn-IsServing req s s' started serving h =
      let ((bin_ino, d1), _, h1) = >>=-ok (dir_lookup dirs 0 bin_name s.dir_state) _ h in
      elim (Option-cases (c_string cmd_arg_len 0 (req.argv 0))) [
        | inl unnamed ↦ absurd (lost (rw unnamed at h1))
        | inr (name, named) ↦
            let ((app_ino, d2), _, h2) =
              >>=-ok (dir_lookup dirs (as_unsigned bin_ino) name d1) _ (rw named at h1) in
            elim (Option-cases app_ino) [
              | inl missing ↦
                  let same : s.kernel ≡ s'.kernel =
                    ap (λ (x : Bool × Server). x.1.kernel) (ok-injective (rw missing at h2)) in
                  rw (← same) serving
              | inr (ino, found) ↦
                  spawn_file-IsServing ino req (record s { dir_state = d2 }) s' started serving
                    (rw found at h2)
            ]
      ]
    where
      lost : ◌≡◌ {A = Run (Bool × Server)} undefined (ok (started, s')) → ⊥
      lost e = cc

  -- What has become of the table.
  abbrev pub Done : ProcOp → ℕ → Server → Server → Type 0
  Done proc_exit_op sender s s' = (s'.kernel.proc_set (sender - 1)).status ≡ unused
  Done proc_killall_op sender s s' =
      (j : ℕ) → j < max_nprocess → s'.kernel.proc_set j ≡ cleared (s.kernel.proc_set j)
  Done proc_spawn_op sender s s' = Unit
  Done proc_sleep_op sender s s' = Unit
  Done unknown_op sender s s' = Unit

  -- A request of another process that the server handles without a stop leaves the table
  -- consistent and the server running; after an exit the sender's slot is unused, and after a
  -- killall those of the user applications are, and no other has changed.
  pub handle_request-IsServing :
      (sender : ℕ) (op : ProcOp) (req : ProcRequest) (s s' : Server) (reply : Option ℕ)
      → IsServing s.kernel
      → sender ≢ gpid_process
      → handle_request dirs files unset sender op req s ≡ ok (reply, s')
      → IsServing s'.kernel × Done op sender s s'
  unfolding handle_request
  handle_request-IsServing sender proc_spawn_op req s s' reply serving other h =
      let ((started, s1), spawned, h1) = >>=-ok (app_spawn dirs files unset req s) _ h in
      let (_, _, h2) = >>=-ok (in_background req) _ h1 in
      let same : s1.kernel ≡ s'.kernel =
        ap (λ (x : Option ℕ × Server). x.1.kernel) (ok-injective h2) in
      (rw (← same) (app_spawn-IsServing req s s1 started serving spawned), tt)
  handle_request-IsServing sender proc_sleep_op req s s' reply serving other h =
      elim (Bool-cases (req.argc == 1 && leb gpid_user_start sender)) [
        | inl valid ↦
            let (k, slept, h1) =
              >>=-ok (proc_sleep sender (word_of (argv_bytes req) 0) s.kernel) _ (rw valid at h) in
            let same : k ≡ s'.kernel =
              ap (λ (x : Option ℕ × Server). x.1.kernel) (ok-injective h1) in
            (
              rw (← same, sleep-same sender (word_of (argv_bytes req) 0) s.kernel k slept) serving,
              tt,
            )
        | inr wrong ↦ absurd (refused (rw wrong at h))
      ]
    where
      refused : ◌≡◌ {A = Run (Option ℕ × Server)} (fatal invalid_request) (ok (reply, s')) → ⊥
      refused e = cc
  handle_request-IsServing sender proc_exit_op req s s' reply serving other h =
      let (k, gone, h1) = >>=-ok (proc_free sender s.kernel) _ h in
      let same : k ≡ s'.kernel = ap (λ (x : Option ℕ × Server). x.1.kernel) (ok-injective h1) in
      rw (← same) (freed-IsServing sender s.kernel k serving other gone)
  handle_request-IsServing sender proc_killall_op req s s' reply serving other h =
      let (k, gone, h1) = >>=-ok (proc_free_all s.kernel) _ h in
      let same : k ≡ s'.kernel = ap (λ (x : Option ℕ × Server). x.1.kernel) (ok-injective h1) in
      rw (← same) (all_freed-IsServing s.kernel k serving gone)
  handle_request-IsServing sender unknown_op req s s' reply serving other h = absurd (cc)
