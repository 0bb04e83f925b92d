-- ===== src/Scheduler/Runs.antt =====
-- turbobond/bond/scheduler.py: what `select` answers.
use turbobond.Base.{
  ℕ, ◌+◌, ◌*◌, ◌≤◌, ◌≡◌, refl, ap, ◌∙◌, ◌⊎◌, inl, inr, Bool, true, Option, none, some, List, [],
  ◌∷◌, length, keep, All, keep-All, arith, subst, All-map,
}
use turbobond.Base.Floats.{Floats}
use turbobond.Links.{Link, usable}
use turbobond.Scheduler.{
  BondScheduler, ready, prefer, candidates, choose, accounted, account, select_from, select,
}
use turbobond.Scheduler.Select.{Answers, select_from-Answers}
use turbobond.Scheduler.Tally.{Tally, tally, times, tally-account}
use turbobond.Scheduler.Keeps.{Keeps, choose-Keeps}

module _ {F : Type 0} where
  -- All links are usable, and all ready unless none of the scheduler's is.
  abbrev pub Carriers : BondScheduler F → List (Link F) → Type 0
  Carriers s ls =
      All (λ l. usable l ≡ true) ls × (All (λ l. ready l ≡ true) ls ⊎ (keep ready (s.links) ≡ []))

  ready→usable : (l : Link F) → ready l ≡ true → usable l ≡ true
  unfolding ready
  ready→usable l e = ground arith

  -- The candidates are all ready, or all usable with none ready.
  prefer-Carriers :
      (xs ys : List (Link F))
      → All (λ l. ready l ≡ true) xs
      → All (λ l. usable l ≡ true) ys
      → All (λ l. ready l ≡ true) (prefer xs ys)
        ⊎ (All (λ l. usable l ≡ true) (prefer xs ys) × (xs ≡ []))
  unfolding prefer
  prefer-Carriers [] ys r u = inr (u, refl)
  prefer-Carriers (x ∷ xs) ys r u = inl r

  candidates-Carriers :
      (s : BondScheduler F)
      → All (λ l. ready l ≡ true) (candidates s)
        ⊎ (All (λ l. usable l ≡ true) (candidates s) × (keep ready (s.links) ≡ []))
  unfolding candidates
  candidates-Carriers s =
      prefer-Carriers (keep ready (s.links)) (keep usable (s.links)) (keep-All ready (s.links))
        (keep-All usable (s.links))

-- The tally of a link id after a packet of `n` bytes, `k` copies of it on the link id.
unfoldable pub counted : ℕ → ℕ → Tally → Tally
counted n k t = record t {
  packets = t.packets + k;
  bytes = t.bytes + n * k;
  total_packets = t.total_packets + 1;
  total_bytes = t.total_bytes + n;
}

module _ {F : Type 0} (fl : Floats F) where
  abbrev Counted : ℕ → BondScheduler F → ℕ → Option (List (Link F) × BondScheduler F) → Type 0
  Counted key s n none = Unit {0}
  Counted key s n (some (chosen, t)) =
      tally fl key t ≡ counted n (times key chosen) (tally fl key s)

  account-Counted :
      (key : ℕ) (chosen : List (Link F)) (n : ℕ) (s t : BondScheduler F)
      → tally fl key t ≡ tally fl key s
      → tally fl key (account fl chosen n t) ≡ counted n (times key chosen) (tally fl key s)
  unfolding counted
  account-Counted key chosen n s t e =
      tally-account fl key chosen n t ∙ ap (counted n (times key chosen)) e

  accounted-Counted :
      (key : ℕ) (s : BondScheduler F) (n : ℕ) (o : Option (List (Link F) × BondScheduler F))
      → Keeps fl key s o
      → Counted key s n (accounted fl n o)
  unfolding accounted
  accounted-Counted key s n none q = tt
  accounted-Counted key s n (some (chosen, t)) q = account-Counted key chosen n s t q

  select_from-Counted :
      (key : ℕ) (l : Link F) (ls : List (Link F)) (n : ℕ) (critical : Bool) (s : BondScheduler F)
      → Counted key s n (select_from fl (l ∷ ls) n critical s)
  unfolding select_from
  select_from-Counted key l [] n critical s = account-Counted key (l ∷ []) n s s refl
  select_from-Counted key l (k ∷ ls) n critical s =
      accounted-Counted key s n (choose fl l (k ∷ ls) n critical s)
        (choose-Keeps fl key l (k ∷ ls) n critical s)

  -- What `select` answers when there is a candidate: the counters of each link id grow by one packet for
  -- each named link that has it.
  abbrev pub Sent : ℕ → BondScheduler F → List (Link F) → BondScheduler F → Type 0
  Sent n s chosen t =
      (1 ≤ length chosen)
      × (Carriers s chosen
          × ((key : ℕ) → tally fl key t ≡ counted n (times key chosen) (tally fl key s)))

  -- The same of an answer that may be none.
  Sent-of_ready :
      (s : BondScheduler F) (n : ℕ) (o : Option (List (Link F) × BondScheduler F))
      → Answers fl (λ l. ready l ≡ true) o
      → ((key : ℕ) → Counted key s n o)
      → (chosen : List (Link F)) × (t : BondScheduler F) × (o ≡ some (chosen, t))
        × Sent n s chosen t
  Sent-of_ready s n none a k = absurd a
  Sent-of_ready s n (some (chosen, t)) a k =
      (chosen, t, refl, (a.0, ((All-map ready→usable chosen a.1, inl a.1), k)))

  Sent-of_usable :
      (s : BondScheduler F) (n : ℕ) (o : Option (List (Link F) × BondScheduler F))
      → keep ready (s.links) ≡ []
      → Answers fl (λ l. usable l ≡ true) o
      → ((key : ℕ) → Counted key s n o)
      → (chosen : List (Link F)) × (t : BondScheduler F) × (o ≡ some (chosen, t))
        × Sent n s chosen t
  Sent-of_usable s n none e a k = absurd a
  Sent-of_usable s n (some (chosen, t)) e a k = (chosen, t, refl, (a.0, ((a.1, inr e), k)))

  select_from-Sent :
      (l : Link F) (ls : List (Link F)) (n : ℕ) (critical : Bool) (s : BondScheduler F)
      → candidates s ≡ l ∷ ls
      → (chosen : List (Link F)) × (t : BondScheduler F) × (select_from fl (l ∷ ls) n critical s
          ≡ some (chosen, t))
        × Sent n s chosen t
  select_from-Sent l ls n critical s e = elim (candidates-Carriers s) [
    | inl a ↦
        Sent-of_ready s n (select_from fl (l ∷ ls) n critical s)
          (select_from-Answers fl _ l ls n critical s (subst (All (λ l. ready l ≡ true)) e a))
          (λ key. select_from-Counted key l ls n critical s)
    | inr (a, z) ↦
        Sent-of_usable s n (select_from fl (l ∷ ls) n critical s) z
          (select_from-Answers fl _ l ls n critical s (subst (All (λ l. usable l ≡ true)) e a))
          (λ key. select_from-Counted key l ls n critical s)
  ]

  -- A drop is counted, and nothing else.
  abbrev pub dropping : BondScheduler F → BondScheduler F
  dropping s = record s {
    stats = record (s.stats) { dropped_packets = s.stats.dropped_packets + 1 };
  }

  select_from_cases :
      (cs : List (Link F)) (n : ℕ) (critical : Bool) (s : BondScheduler F)
      → candidates s ≡ cs
      → ((cs ≡ []) × (select_from fl cs n critical s ≡ some ([], dropping s)))
        ⊎ ((chosen : List (Link F)) × (t : BondScheduler F) × (select_from fl cs n critical s
              ≡ some (chosen, t))
            × Sent n s chosen t)
  unfolding select_from
  select_from_cases [] n critical s e = inl (refl, refl)
  select_from_cases (l ∷ ls) n critical s e = inr (select_from-Sent l ls n critical s e)

  -- `select` answers on every input. Without a candidate it counts a drop and nothing else. Else it
  -- names at least one link, all of them usable, all with a live tunnel socket if any usable link of the
  -- bond has one, and counts the packet and its bytes once in the totals and, in the counters of each link
  -- id, once for each named link that has the id.
  pub select_cases :
      (n : ℕ) (critical : Bool) (s : BondScheduler F)
      → ((candidates s ≡ []) × (select fl n critical s ≡ some ([], dropping s)))
        ⊎ ((chosen : List (Link F)) × (t : BondScheduler F) × (select fl n critical s
              ≡ some (chosen, t))
            × Sent n s chosen t)
  unfolding select
  select_cases n critical s = select_from_cases (candidates s) n critical s refl
