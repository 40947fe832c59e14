-- ===== src/Arp/Sweep.antt =====
-- The periodic sweep: mappings age, requests are sent again and given up.
use network_lab.Base.{
  ℕ, suc, ◌+◌, ◌≤◌, ◌<◌, ◌≡◌, refl, ap, ◌∙◌, subst, false, ◌⊎◌, inl, inr, List, [], ◌∷◌, ◌++◌,
  Option, none, some, arith, length, Every, append_assoc, ltb, if◌then◌else◌, Bool-cases,
}
use mathlib.Core.List.{Perm, perm_append_comm}
use mathlib.Core.List.Perm
use native.Mathlib.Nat.{zero-add}
use network_lab.Arp.{
  CacheEntry, ArpReq, CachedPkt, holds, lookup_entries, is_known, expire, arp_entry_timeout,
  sweep_requests, arp_request_max_retries, arp_request,
}
use network_lab.Arp.Lookup.{Distinct, IsTable, lookup-unknown}

-- the valid entry for an address
unfoldable pub find_entry : ℕ → List CacheEntry → Option CacheEntry
find_entry ip4 [] = none
find_entry ip4 (e ∷ es) = if holds ip4 e then some e else find_entry ip4 es

length-expire : (now : ℕ) (es : List CacheEntry) → length (expire now es) ≡ length es
unfolding expire
length-expire now [] = refl
length-expire now (e ∷ es) = ap suc (length-expire now es)

expire-unknown :
    (now j : ℕ) (es : List CacheEntry) → is_known j es ≡ false → is_known j (expire now es) ≡ false
unfolding expire is_known
expire-unknown now j [] h = refl
expire-unknown now j (e ∷ es) h = ground (arith, expire-unknown now j es)

expire-Distinct : (now : ℕ) (es : List CacheEntry) → Distinct es → Distinct (expire now es)
unfolding expire
expire-Distinct now [] d = tt
expire-Distinct now (e ∷ es) d =
    ground (arith, expire-Distinct now es d.1, d.0, expire-unknown now e.ip4 es)

-- Ageing keeps the table.
pub expire-IsTable : (now : ℕ) {es : List CacheEntry} → IsTable es → IsTable (expire now es)
expire-IsTable now {es} t = record {
  full_size = length-expire now es ∙ t.full_size;
  distinct = expire-Distinct now es t.distinct;
}

-- In a table without double addresses, after the sweep an address is found exactly if it was found
-- in an entry of less than 15 seconds.
lookup-expire :
    (now j : ℕ) (es : List CacheEntry)
    → Distinct es
    → lookup_entries j (expire now es) ≡ elim (find_entry j es) [
      | none ↦ none
      | some e ↦ if ltb now (e.added + arp_entry_timeout) then some e.mac else none
    ]
unfolding expire lookup_entries find_entry
lookup-expire now j [] d = refl
lookup-expire now j (e ∷ es) d = elim (Bool-cases (holds j e)) [
  | inl held ↦ ground (arith, d.0, lookup-unknown j (expire now es), expire-unknown now j es)
  | inr other ↦ ground (arith, lookup-expire now j es d.1)
]

-- All packets that wait, request by request.
unfoldable pub waiting : List ArpReq → List CachedPkt
waiting [] = []
waiting (req ∷ reqs) = req.cached_packets ++ waiting reqs

interchange {ℓ} :
    {A : Type ℓ} (c d w w' : List A) → Perm w (d ++ w') → Perm (c ++ w) (d ++ (c ++ w'))
interchange c d w w' h =
    Perm.trans (Perm.append_left c h)
      (rw (← append_assoc c d w', ← append_assoc d c w') (Perm.append_right w' perm_append_comm'))
  where
    perm_append_comm' : Perm (c ++ d) (d ++ c)
    perm_append_comm' = perm_append_comm c d

module _ (now : ℕ) (req : ArpReq) (reqs : List ArpReq) where
  -- A request is kept, sent once more, or given up.
  sweep_cases :
      ((now ≤ req.sent)
        × (sweep_requests now (req ∷ reqs)
            ≡ record (sweep_requests now reqs) { reqs = req ∷ (sweep_requests now reqs).reqs }))
      ⊎ ((req.sent < now)
          × (req.retries < arp_request_max_retries)
          × (sweep_requests now (req ∷ reqs) ≡ record (sweep_requests now reqs) {
            reqs = record req { retries = req.retries + 1 } ∷ (sweep_requests now reqs).reqs;
            resent = arp_request req.iface req.ip4 ∷ (sweep_requests now reqs).resent;
          }))
      ⊎ ((req.sent < now)
          × (arp_request_max_retries ≤ req.retries)
          × (sweep_requests now (req ∷ reqs) ≡ record (sweep_requests now reqs) {
            dropped = req.cached_packets ++ (sweep_requests now reqs).dropped;
          }))
  unfolding sweep_requests
  sweep_cases = elim (Bool-cases (ltb now (req.sent + 1))) [
    | inl young ↦ inl (ground arith, rw young refl)
    | inr due ↦ elim (Bool-cases (ltb req.retries arp_request_max_retries)) [
      | inl again ↦ inr (inl (ground arith, ground arith, rw (due, again) refl))
      | inr over ↦ inr (inr (ground arith, ground arith, rw (due, over) refl))
    ]
  ]

-- The sweep loses no packet that waits: each still waits, or is given up.
sweep_requests-Perm :
    (now : ℕ) (reqs : List ArpReq)
    → Perm
        (waiting reqs)
        ((sweep_requests now reqs).dropped ++ waiting (sweep_requests now reqs).reqs)
unfolding waiting
sweep_requests-Perm now [] = unfold sweep_requests in Perm.nil
sweep_requests-Perm now (req ∷ reqs) = elim (sweep_cases now req reqs) [
  | inl (_, e) ↦ rw e (interchange req.cached_packets _ _ _ (sweep_requests-Perm now reqs))
  | inr (inl (_, _, e)) ↦ rw e (interchange req.cached_packets _ _ _ (sweep_requests-Perm now reqs))
  | inr (inr (_, _, e)) ↦
      rw (e, append_assoc) (Perm.append_left req.cached_packets (sweep_requests-Perm now reqs))
]

-- No more than five requests were sent.
abbrev Bounded : List ArpReq → Type 0
Bounded = Every (λ req. req.retries ≤ arp_request_max_retries)

-- No request is sent more than five times: a sweep keeps that bound.
sweep_requests-Bounded :
    (now : ℕ) (reqs : List ArpReq) → Bounded reqs → Bounded (sweep_requests now reqs).reqs
unfolding sweep_requests
sweep_requests-Bounded now [] b = tt
sweep_requests-Bounded now (req ∷ reqs) b = ground (arith, sweep_requests-Bounded now reqs)

-- The requests left after a sweep at each of the given times.
unfoldable pub sweeps : List ℕ → List ArpReq → List ArpReq
sweeps [] reqs = reqs
sweeps (now ∷ nows) reqs = sweeps nows (sweep_requests now reqs).reqs

-- sent at least `k` times, the first time before `start`
abbrev Due : ℕ → ℕ → ArpReq → Type 0
Due k start req = (k ≤ req.retries) × (req.sent < start)

sweep_requests-Due :
    (k start now : ℕ) (reqs : List ArpReq)
    → start ≤ now
    → Every (Due k start) reqs
    → Every (Due (suc k) start) (sweep_requests now reqs).reqs
sweep_requests-Due k start now [] h d = unfold sweep_requests in tt
sweep_requests-Due k start now (req ∷ reqs) h d = elim (sweep_cases now req reqs) [
  | inl (young, e) ↦ absurd (omega arith)
  | inr (inl (_, _, e)) ↦
      rw e ((omega arith, omega arith), sweep_requests-Due k start now reqs h d.1)
  | inr (inr (_, _, e)) ↦ rw e (sweep_requests-Due k start now reqs h d.1)
]

sweeps-Due :
    (nows : List ℕ) (k start : ℕ) (reqs : List ArpReq)
    → Every (λ now. start ≤ now) nows
    → Every (Due k start) reqs
    → Every (Due (length nows + k) start) (sweeps nows reqs)
unfolding sweeps
sweeps-Due [] k start reqs n d = rw zero-add d
sweeps-Due (now ∷ nows) k start reqs n d =
    subst (λ j. Every (Due j start) (sweeps nows (sweep_requests now reqs).reqs)) (omega arith)
      (sweeps-Due nows (suc k) start (sweep_requests now reqs).reqs n.1
        (sweep_requests-Due k start now reqs n.0 d))

sweeps-Bounded : (nows : List ℕ) (reqs : List ArpReq) → Bounded reqs → Bounded (sweeps nows reqs)
unfolding sweeps
sweeps-Bounded [] reqs b = b
sweeps-Bounded (now ∷ nows) reqs b = sweeps-Bounded nows _ (sweep_requests-Bounded now reqs b)

all_old :
    (start : ℕ) (reqs : List ArpReq)
    → Every (Due (suc arp_request_max_retries) start) reqs
    → Bounded reqs
    → reqs ≡ []
all_old start [] d b = refl
all_old start (req ∷ reqs) d b = absurd (omega arith)

-- A host that never answers is given up: requests that were sent before `start`, once at least and
-- five times at most, are gone after five sweeps from `start` on.
sweeps-nil :
    (nows : List ℕ) (start : ℕ) (reqs : List ArpReq)
    → length nows ≡ arp_request_max_retries
    → Every (λ now. start ≤ now) nows
    → Every (Due 1 start) reqs
    → Bounded reqs
    → sweeps nows reqs ≡ []
sweeps-nil nows start reqs five n d b =
    all_old start (sweeps nows reqs)
      (subst (λ j. Every (Due j start) (sweeps nows reqs)) (omega arith)
        (sweeps-Due nows 1 start reqs n d))
      (sweeps-Bounded nows reqs b)
