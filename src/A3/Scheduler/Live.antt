-- ===== src/A3/Scheduler/Live.antt =====
-- About a3/cpu.c and `run_proc_RR` of a3/kernel.c: which processes exist behind them.
use mock_os.Prelude.{
  Bool, true, false, none, some, List, if◌then◌else◌, refl, ltb, ◌==◌, ℕ, ◌≡◌, zero, suc, [], ◌∷◌,
  Text,
}
use mock_os.Prelude.Int.{ℤ, pos}
use mock_os.A3.LinkedList.{ok, fault}
use mock_os.A3.Pcb.{pcb_done}
use mock_os.A3.Exec.{Exec, gets}
use mock_os.A3.Exec.Leads.{
  Ensures, Leads-any, Leads, Keeps, Leads-pure, Leads-no_fuel, Leads-if, Leads-pre, Leads-post,
  Keeps-pure, Keeps-gets, Keeps-demand, Leads-modify, Leads-bind, Leads-then,
}
use mock_os.A3.ShellMemory.{Config}
use mock_os.A3.Fs.FreeMap.{BitmapLib}
use mock_os.A3.Fs.Io.{Host}
use mock_os.A3.Machine.{Machine, get_pcb}
use mock_os.A3.Machine.Live.{
  IsAlive, AreAlive, AreGone, AreGone-store_none, store_none_self, IsLive, IsLive-forget,
}
use mock_os.A3.Machine.Actions.{get_pcb-IsLive, put_pcb-IsLive, enqueue-IsLive, dequeue-IsLive}
use mock_os.A3.Kernel.Live.{after_line-IsLive}
use mock_os.A3.Scheduler.{
  queue_done, free_process, free_all, cpu_run, run_proc, run_next, turn, rounds, run_proc_rr,
}

module _ {lib : BitmapLib} {W : Type 0} where
  -- The loop over a queue of processes that exist meets none that was freed.
  pub queue_done-IsLive :
      (s : Machine lib W) (as_ : List ℕ)
      → AreAlive s.pcbs as_
      → (done : Bool) × (queue_done s as_ ≡ some done)
  unfolding queue_done
  queue_done-IsLive s [] h = (true, refl)
  queue_done-IsLive s (a ∷ as_) (alive, h) =
      let (later, e) = queue_done-IsLive s as_ h in
      elim (s.pcbs a)
          as (λ o.
            IsAlive o
            → (done : Bool) × (elim o [
              | none ↦ none
              | some p ↦ if pcb_done p then queue_done s as_ else some false
            ]
                ≡ some done)) [
                  | none ↦ λ alive. absurd alive
                  | some p ↦ λ alive.
                      elim (pcb_done p)
                        as (λ b.
                          (done : Bool) × ((if b then queue_done s as_ else some false)
                            ≡ some done)) [ true ↦ (later, e) | false ↦ (false, refl) ]
                ]
        alive

  get_pcb-Keeps : {P : Machine lib W → Type 0} (a : ℕ) → Keeps P (get_pcb {lib = lib} {W = W} a)
  unfolding get_pcb
  get_pcb-Keeps {P} a = record {
    at = λ s h.
        elim (s.pcbs a) as (λ o. Ensures (λ _. P) (elim o [ none ↦ fault | some p ↦ ok (p, s) ])) [
          | none ↦ tt
          | some p ↦ h
        ];
  }

  free_process-AreGone :
      (a : ℕ) (gone : List ℕ)
      → Leads
          (λ (s : Machine lib W). AreGone s.pcbs gone)
          (free_process a)
          (λ _ s. AreGone s.pcbs (a ∷ gone))
  unfolding free_process
  free_process-AreGone a gone = Leads-bind _ _ (get_pcb-Keeps a) λ p.
      Leads-bind _ _ (Keeps-gets _) λ o. Leads-bind _ _ (Keeps-demand o) λ memory.
        Leads-modify _ λ s h. (store_none_self s.pcbs a, AreGone-store_none s.pcbs a gone h)

  -- All the processes are freed, each after those in front of it.
  free_all-AreGone :
      (as_ gone : List ℕ)
      → Leads
          (λ (s : Machine lib W). AreGone s.pcbs gone)
          (free_all as_)
          (λ _ s. AreGone s.pcbs as_ × AreGone s.pcbs gone)
  unfolding free_all
  free_all-AreGone [] gone = Leads-pure tt λ s h. (tt, h)
  free_all-AreGone (a ∷ as_) gone =
      Leads-then _ _ (free_process-AreGone a gone)
        λ _. Leads-post _ (λ _ s h. ((h.1.0, h.0), h.1.1)) (free_all-AreGone as_ (a ∷ gone))

  pub free_all-Frees :
      (as_ : List ℕ) (s : Machine lib W) → Ensures (λ _ s'. AreGone s'.pcbs as_) (free_all as_ s)
  free_all-Frees as_ s = (Leads-post _ (λ _ s h. h.0) (free_all-AreGone as_ [])).at s tt

  -- What `run_proc_RR` leaves of the lists.
  pub record IsIdle (s : Machine lib W) : Type 0 where
    pub no_queue : s.queue ≡ []
    pub no_pages : s.lru_cache ≡ []
    pub no_processes : s.all_pcb ≡ []

  module _ (cfg : Config) (host : Host W) where
    module _ (parse : Text → Exec (Machine lib W) ℤ)
        (parse-IsLive : (line : Text) → Keeps (IsLive []) (parse line)) where
      cpu_run-IsLive :
          (a i j : ℕ) → Leads (IsLive []) (cpu_run cfg host parse a i j) (λ _. IsLive (a ∷ []))
      unfolding cpu_run
      cpu_run-IsLive a i j = Leads-bind _ _ (get_pcb-IsLive [] a) λ p.
          Leads-bind _ _ (Keeps-demand _) λ page. Leads-bind _ _ (Keeps-demand _) λ valid.
            Leads-if valid _ _
              (Leads-bind _ _ (Keeps-demand _) λ slot. Leads-bind _ _ (Keeps-gets _) λ o.
                Leads-bind _ _ (Keeps-demand o) λ line.
                  Leads-bind _ _ (Leads-pre _ (IsLive-forget [] a) (parse-IsLive line)) λ ret.
                    Leads-bind _ _ (get_pcb-IsLive [] a)
                      λ p'. Leads-then _ _ (put_pcb-IsLive (a ∷ []) a _) λ _. Keeps-pure ret)
              (Keeps-pure (pos 1))

      run_proc-IsLive :
          (a i j : ℕ) → Leads (IsLive []) (run_proc cfg host parse a i j) (λ _. IsLive (a ∷ []))
      unfolding run_proc
      run_proc-IsLive a i j =
          Leads-bind _ _ (cpu_run-IsLive a i j) λ ret. after_line-IsLive cfg host [] a i ret

      run_next-IsLive :
          (a : ℕ) → Leads (IsLive []) (run_next cfg host parse a) (λ _. IsLive (a ∷ []))
      unfolding run_next
      run_next-IsLive a = Leads-bind _ _ (get_pcb-IsLive [] a) λ p.
          Leads-bind _ _ (Keeps-demand _)
            λ j. Leads-pre _ (IsLive-forget [] a) (run_proc-IsLive a _ j)

      pub turn-IsLive : (a : ℕ) → Keeps (IsLive []) (turn cfg host parse a)
      unfolding turn
      turn-IsLive a = Leads-bind _ _ (get_pcb-IsLive [] a) λ p. Leads-pre _ (IsLive-forget [] a) (
          Leads-if (ltb 1 p.size) _ _
            (Leads-bind _ _ (run_next-IsLive a) λ first.
              Leads-if first _ _ (Leads-pure tt (IsLive-forget [] a)) (
                Leads-bind _ _ (Leads-pre _ (IsLive-forget [] a) (run_next-IsLive a)) λ second.
                  Leads-if second _ _ (Leads-pure tt (IsLive-forget [] a))
                    (Leads-post _ (λ _. IsLive-forget [] a) (enqueue-IsLive [] a))))
            (Leads-if (p.size == 1) _ _
              (Leads-then _ _ (run_next-IsLive a) λ _. Leads-pure tt (IsLive-forget [] a))
              (Keeps-pure tt)))

      pub rounds-IsLive : (fuel : ℕ) → Keeps (IsLive []) (rounds cfg host parse fuel)
      unfolding rounds
      rounds-IsLive zero = Leads-no_fuel
      rounds-IsLive (suc fuel) = Leads-bind _ _ (Keeps-gets _) λ o.
          Leads-bind _ _ (Keeps-demand o) λ done. Leads-if done _ _ (Keeps-pure tt) (
            Leads-bind _ _ (dequeue-IsLive []) λ a.
              Leads-then _ _ (Leads-pre _ (IsLive-forget [] a) (turn-IsLive a))
                λ _. rounds-IsLive fuel)

      -- The processes are freed, and all of the lists are emptied.
      pub run_proc_rr-IsLive :
          (fuel : ℕ)
          → Leads (IsLive []) (run_proc_rr cfg host parse fuel) (λ r s. (r ≡ pos 0) × IsLive [] s)
      unfolding run_proc_rr
      run_proc_rr-IsLive fuel = Leads-then _ _ (rounds-IsLive fuel) λ _.
          Leads-bind _ _ (Keeps-gets _) λ all. Leads-then _ _ (Leads-any (free_all all)) λ _.
            Leads-then _ _
              (Leads-modify _ λ s h. record { queued = tt; cached = tt; listed = tt; rooted = tt })
              λ _. Leads-pure (pos 0) λ s h. (refl, h)

    pub run_proc_rr-IsIdle :
        (parse : Text → Exec (Machine lib W) ℤ) (fuel : ℕ)
        → Leads
            (λ (s : Machine lib W). Unit {0})
            (run_proc_rr cfg host parse fuel)
            (λ r s. (r ≡ pos 0) × IsIdle s)
    unfolding run_proc_rr
    run_proc_rr-IsIdle parse fuel = Leads-then _ _ (Leads-any (rounds cfg host parse fuel)) λ _.
        Leads-bind _ _ (Leads-any (gets (λ s. s.all_pcb))) λ all.
          Leads-then _ _ (Leads-any (free_all all)) λ _.
            Leads-then _ _
              (Leads-modify _
                λ s h. record { no_queue = refl; no_pages = refl; no_processes = refl })
              λ _. Leads-pure (pos 0) λ s h. (refl, h)
