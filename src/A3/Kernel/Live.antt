-- ===== src/A3/Kernel/Live.antt =====
-- About `new_proc` and the page faults of a3/kernel.c: which processes exist behind them.
use mock_os.Prelude.{
  sym, subst, ◌==◌, if◌then◌else◌, ℕ, ◌+◌, Option, none, some, zero, suc, true, false, List, [],
  ◌∷◌, Text,
}
use mock_os.Prelude.Int.{ℤ, pos}
use mock_os.A3.Exec.Leads.{
  Leads-gets, Leads-demand, Leads, Keeps, Leads-pure, Leads-if, Leads-post, Keeps-pure, Keeps-gets,
  Keeps-demand, Leads-modify, Leads-bind, Leads-then, Keeps-then,
}
use mock_os.A3.ShellMemory.{Config}
use mock_os.A3.Pcb.{Pcb}
use mock_os.A3.Fs.FreeMap.{BitmapLib}
use mock_os.A3.Fs.Io.{Host}
use mock_os.A3.Machine.{Machine, say, touch_page}
use mock_os.A3.Machine.Live.{
  IsLive, cache-IsLive, store-IsLive, list-IsLive, AreAlive, IsAlive, owners, IsLive-forget,
}
use mock_os.A3.Machine.Actions.{
  say-IsLive, get_pcb-IsLive, enqueue-IsLive, with_memory-IsLive, touch_page-IsLive,
  pop_victim-IsLive,
}
use mock_os.A3.Kernel.{
  print_all, touch_first, remove_page, page_fault, page_used, first_slot, keep_page, after_line,
  load, evict, replace_page, new_proc,
}

-- What `remove_page` finds and leaves is alive.
abbrev AreKept : (ℕ → Option Pcb) → Option ((ℕ × ℕ) × List (ℕ × ℕ)) → Type 0
AreKept f none = Unit
AreKept f (some (q, rest)) = IsAlive (f q.0) × AreAlive f (owners rest)

keep_page-AreKept :
    (f : ℕ → Option Pcb) (q : ℕ × ℕ) (o : Option ((ℕ × ℕ) × List (ℕ × ℕ)))
    → IsAlive (f q.0)
    → AreKept f o
    → AreKept f (keep_page q o)
keep_page-AreKept f q none l h = tt
keep_page-AreKept f q (some (r, rest)) l h = (h.0, (l, h.1))

module _ {lib : BitmapLib} {W : Type 0} where
  remove_page-AreKept :
      (s : Machine lib W) (slot : ℕ) (pages : List (ℕ × ℕ))
      → AreAlive s.pcbs (owners pages)
      → AreKept s.pcbs (remove_page s slot pages)
  unfolding remove_page
  remove_page-AreKept s slot [] h = tt
  remove_page-AreKept s slot (q ∷ pages) (l, h) =
      let later =
        keep_page-AreKept s.pcbs q (remove_page s slot pages) l
          (remove_page-AreKept s slot pages h) in
      elim (first_slot q s)
        as (λ o. AreKept s.pcbs (elim o [
          | none ↦ none
          | some i ↦ if slot == i then some (q, pages) else keep_page q (remove_page s slot pages)
        ])) [
          | none ↦ tt
          | some i ↦
              elim (slot == i)
                as (λ b.
                  AreKept s.pcbs
                    (if b then some (q, pages) else keep_page q (remove_page s slot pages))) [
                      | true ↦ (l, h)
                      | false ↦ later
                    ]
        ]

  print_all-IsLive :
      (roots : List ℕ) (ts : List Text) → Keeps (IsLive roots) (print_all {lib = lib} {W = W} ts)
  unfolding print_all
  print_all-IsLive roots [] = Keeps-pure tt
  print_all-IsLive roots (t ∷ ts) =
      Keeps-then (say t) (print_all ts) (say-IsLive roots t) (print_all-IsLive roots ts)

  touch_first-IsLive :
      (roots : List ℕ) (a n i : ℕ)
      → Keeps (IsLive (a ∷ roots)) (touch_first {lib = lib} {W = W} a n i)
  unfolding touch_first
  touch_first-IsLive roots a zero i = Keeps-pure tt
  touch_first-IsLive roots a (suc n) i =
      Keeps-then (touch_page (a, i)) (touch_first a n (i + 1)) (touch_page-IsLive roots a i)
        (touch_first-IsLive roots a n (i + 1))

  module _ (cfg : Config) (host : Host W) where
    load-IsLive :
        (roots : List ℕ) (a i : ℕ)
        → Leads (IsLive roots) (load {lib = lib} cfg host a i) (λ _. IsLive (a ∷ roots))
    unfolding load
    load-IsLive roots a i = Leads-bind _ _ (get_pcb-IsLive roots a) λ p.
        Leads-bind _ _ (Keeps-gets _) λ o. Leads-bind _ _ (Keeps-demand o) λ r.
          Leads-then _ _ (Leads-modify _ λ s h. store-IsLive (a ∷ roots) a r.1 r.2 s h)
            λ _. Keeps-pure r.0

    evict-IsLive :
        (roots : List ℕ) (a i : ℕ) → Keeps (IsLive roots) (evict {lib = lib} cfg host a i)
    unfolding evict
    evict-IsLive roots a i = Leads-bind _ _ (get_pcb-IsLive roots a) λ p.
        Leads-bind _ _ (Keeps-gets _) λ o. Leads-bind _ _ (Keeps-demand o) λ r.
          Leads-then _ _ (Leads-modify _ λ s h. store-IsLive (a ∷ roots) a r.0 r.1 s h) λ _.
            Leads-then _ _ (say-IsLive (a ∷ roots) _) λ _.
              Leads-then _ _ (print_all-IsLive (a ∷ roots) r.2)
                λ _. Leads-post _ (λ _. IsLive-forget roots a) (say-IsLive (a ∷ roots) _)

    replace_page-IsLive :
        (roots : List ℕ) (a i : ℕ) → Keeps (IsLive roots) (replace_page {lib = lib} cfg host a i)
    unfolding replace_page
    replace_page-IsLive roots a i = Leads-bind _ _ (pop_victim-IsLive roots) λ victim.
        Leads-bind _ _ (Keeps-gets _) λ o. Leads-bind _ _ (Keeps-demand o) λ page.
          Leads-bind _ _ (Keeps-gets _) λ o'. Leads-bind _ _ (Keeps-demand o') λ owner.
            Leads-then _ _ (evict-IsLive (victim.0 ∷ roots) owner page.page_index) λ _.
              Leads-then _ _ (load-IsLive (victim.0 ∷ roots) a i) λ _.
                Leads-pure tt
                  λ s h. IsLive-forget roots victim.0 s (IsLive-forget (victim.0 ∷ roots) a s h)

    pub new_proc-IsLive : (script : Text) → Keeps (IsLive []) (new_proc {lib = lib} cfg host script)
    unfolding new_proc
    new_proc-IsLive script = Leads-bind _ _ (Keeps-gets _) λ pid.
        Leads-then _ _
          (Leads-modify _ λ s h. record {
            queued = h.queued;
            cached = h.cached;
            listed = h.listed;
            rooted = h.rooted;
          })
          λ _. Leads-bind _ _ (Keeps-gets _) λ content.
            Leads-bind _ _ (with_memory-IsLive [] _) λ p. Leads-bind _ _ (Keeps-gets _) λ a.
              Leads-then _ _ (Leads-modify _ λ s h. list-IsLive [] a (s.fresh + 1) p s h) λ _.
                Leads-then _ _ (enqueue-IsLive [] a) λ _.
                  Leads-then _ _ (touch_first-IsLive [] a _ 0)
                    λ _. Leads-pure 0 (IsLive-forget [] a)

    page_fault-IsLive :
        (roots : List ℕ) (a i : ℕ)
        → Leads (IsLive (a ∷ roots)) (page_fault {lib = lib} cfg host a i) (λ _. IsLive (a ∷ roots))
    unfolding page_fault
    page_fault-IsLive roots a i = Leads-bind _ _ (load-IsLive (a ∷ roots) a i) λ failed.
        Leads-then _ _
          (Leads-if (failed == 1) _ _ (replace_page-IsLive (a ∷ a ∷ roots) a i) (Keeps-pure tt))
          λ _. Leads-then _ _ (touch_page-IsLive (a ∷ roots) a i) λ _.
            Leads-then _ _ (enqueue-IsLive (a ∷ roots) a)
              λ _. Leads-pure true (IsLive-forget (a ∷ roots) a)

    page_used-IsLive :
        (roots : List ℕ) (a i : ℕ) → Keeps (IsLive roots) (page_used {lib = lib} cfg host a i)
    unfolding page_used
    page_used-IsLive roots a i = Leads-bind _ _ (Keeps-gets _) λ o.
        Leads-bind _ _ (Keeps-demand o) λ slot. Leads-bind _ _ (Leads-gets _) λ found.
          Leads-bind _ _ (Leads-demand (λ s. remove_page s slot s.lru_cache) found) λ r.
            Leads-then _ _
              (Leads-modify _ λ s h.
                (let kept : AreKept s.pcbs (some r) =
                    subst (AreKept s.pcbs) (sym h.1)
                      (remove_page-AreKept s slot s.lru_cache (h.0).cached) in
                  cache-IsLive roots r.0 r.1 s h.0 kept.0 kept.1))
              λ _. Keeps-pure false

    pub after_line-IsLive :
        (roots : List ℕ) (a i : ℕ) (ret : ℤ)
        → Keeps (IsLive (a ∷ roots)) (after_line {lib = lib} cfg host a i ret)
    unfolding after_line
    after_line-IsLive roots a i (pos (suc zero)) = page_fault-IsLive roots a i
    after_line-IsLive roots a i _ = page_used-IsLive (a ∷ roots) a i
