-- ===== src/A3/Machine/Actions.antt =====
-- About the actions on the state of a3: which processes exist behind them.
use mock_os.Prelude.{ℕ, refl, none, some, List, [], Text, ◌∷◌, ◌≡◌}
use mock_os.A3.LinkedList.{Result, ok, exited, fault, out_of_fuel}
use mock_os.A3.Exec.{Exec}
use mock_os.A3.Exec.Leads.{Ensures, Leads, Keeps, Leads-modify}
use mock_os.Store.{Slot}
use mock_os.A3.Pcb.{Pcb}
use mock_os.A3.Fs.FreeMap.{BitmapLib}
use mock_os.A3.Fs.Io.{Io}
use mock_os.A3.Machine.{
  Machine, pop_last, store_io, with_io, store_memory, with_memory, say, get_pcb, put_pcb, enqueue,
  touch_page, dequeue, pop_victim,
}
use mock_os.A3.Machine.Live.{
  AreAlive, AreAlive-append, ArePopped, pop_last-ArePopped, IsLive, store-IsLive,
}

module _ {lib : BitmapLib} {W : Type 0} where
  store_io-IsLive :
      {A : Type 0} {roots : List ℕ} (s : Machine lib W) (r : Result (A × Io lib W))
      → IsLive roots s
      → Ensures (λ _. IsLive roots) (store_io s r)
  store_io-IsLive s (ok (a, io')) h = record {
    queued = h.queued;
    cached = h.cached;
    listed = h.listed;
    rooted = h.rooted;
  }
  store_io-IsLive s (exited n) h = tt
  store_io-IsLive s fault h = tt
  store_io-IsLive s out_of_fuel h = tt

  pub with_io-IsLive :
      {A : Type 0} (roots : List ℕ) (m : Exec (Io lib W) A)
      → Keeps (IsLive roots) (with_io {lib = lib} {W = W} m)
  unfolding with_io
  with_io-IsLive roots m = record { at = λ s h. store_io-IsLive s (m s.io) h }

  store_memory-IsLive :
      {A : Type 0} {roots : List ℕ} (s : Machine lib W) (r : Result (A × List Slot))
      → IsLive roots s
      → Ensures (λ _. IsLive roots) (store_memory s r)
  store_memory-IsLive s (ok (a, memory)) h = record {
    queued = h.queued;
    cached = h.cached;
    listed = h.listed;
    rooted = h.rooted;
  }
  store_memory-IsLive s (exited n) h = tt
  store_memory-IsLive s fault h = tt
  store_memory-IsLive s out_of_fuel h = tt

  pub with_memory-IsLive :
      {A : Type 0} (roots : List ℕ) (f : List Slot → Result (A × List Slot))
      → Keeps (IsLive roots) (with_memory {lib = lib} {W = W} f)
  unfolding with_memory
  with_memory-IsLive roots f = record { at = λ s h. store_memory-IsLive s (f s.memory) h }

  pub say-IsLive : (roots : List ℕ) (t : Text) → Keeps (IsLive roots) (say {lib = lib} {W = W} t)
  unfolding say
  say-IsLive roots t = with_io-IsLive roots _

  pub get_pcb-IsLive :
      (roots : List ℕ) (a : ℕ)
      → Leads (IsLive roots) (get_pcb {lib = lib} {W = W} a) (λ _. IsLive (a ∷ roots))
  unfolding get_pcb
  get_pcb-IsLive roots a = record {
    at = λ s h.
        elim (s.pcbs a)
            as (λ o.
              (o ≡ s.pcbs a)
              → Ensures (λ _. IsLive (a ∷ roots)) (elim o [ none ↦ fault | some p ↦ ok (p, s) ])) [
                | none ↦ λ e. tt
                | some p ↦ λ e. record {
                  queued = h.queued;
                  cached = h.cached;
                  listed = h.listed;
                  rooted = (rw (← e) tt, h.rooted);
                }
              ]
          refl;
  }

  pub put_pcb-IsLive :
      (roots : List ℕ) (a : ℕ) (p : Pcb) → Keeps (IsLive roots) (put_pcb {lib = lib} {W = W} a p)
  unfolding put_pcb
  put_pcb-IsLive roots a p = Leads-modify _ λ s h. store-IsLive roots a p s.memory s h

  pub enqueue-IsLive :
      (roots : List ℕ) (a : ℕ) → Keeps (IsLive (a ∷ roots)) (enqueue {lib = lib} {W = W} a)
  unfolding enqueue
  enqueue-IsLive roots a = Leads-modify _ λ s h. record {
    queued = AreAlive-append s.pcbs s.queue a h.queued (h.rooted).0;
    cached = h.cached;
    listed = h.listed;
    rooted = h.rooted;
  }

  pub touch_page-IsLive :
      (roots : List ℕ) (a i : ℕ)
      → Keeps (IsLive (a ∷ roots)) (touch_page {lib = lib} {W = W} (a, i))
  unfolding touch_page
  touch_page-IsLive roots a i = Leads-modify _ λ s h. record {
    queued = h.queued;
    cached = ((h.rooted).0, h.cached);
    listed = h.listed;
    rooted = h.rooted;
  }

  pub dequeue-IsLive :
      (roots : List ℕ)
      → Leads (IsLive roots) (dequeue {lib = lib} {W = W}) (λ a. IsLive (a ∷ roots))
  unfolding dequeue
  dequeue-IsLive roots = record {
    at = λ s h.
        elim s.queue
            as (λ q.
              AreAlive s.pcbs q
              → Ensures (λ a. IsLive (a ∷ roots))
                  (elim q [ [] ↦ exited 99 | a ∷ rest ↦ ok (a, record s { queue = rest }) ])) [
                    | [] ↦ λ q. tt
                    | a ∷ rest ↦ λ q. record {
                      queued = q.1;
                      cached = h.cached;
                      listed = h.listed;
                      rooted = (q.0, h.rooted);
                    }
                  ]
          h.queued;
  }

  pub pop_victim-IsLive :
      (roots : List ℕ)
      → Leads (IsLive roots) (pop_victim {lib = lib} {W = W}) (λ q. IsLive (q.0 ∷ roots))
  unfolding pop_victim
  pop_victim-IsLive roots = record {
    at = λ s h.
        elim (pop_last s.lru_cache)
            as (λ o.
              ArePopped s.pcbs o
              → Ensures (λ q. IsLive (q.0 ∷ roots))
                  (elim o [
                    | none ↦ exited 99
                    | some (rest, page) ↦ ok (page, record s { lru_cache = rest })
                  ])) [
                    | none ↦ λ q. tt
                    | some (rest, page) ↦ λ q. record {
                      queued = h.queued;
                      cached = q.0;
                      listed = h.listed;
                      rooted = (q.1, h.rooted);
                    }
                  ]
          (pop_last-ArePopped s.pcbs s.lru_cache h.cached);
  }
