-- ===== src/Scheduler/Select.antt =====
-- turbobond/bond/scheduler.py: `select` always answers, with links that can carry traffic.
use turbobond.Base.{
  ℕ, zero, suc, ◌+◌, ◌*◌, ◌%◌, ◌≤◌, ◌<◌, ◌≡◌, refl, Bool, true, false, Option, none, some, List, [],
  ◌∷◌, if◌then◌else◌, length, get_elem?, map, All, arith,
}
use native.Mathlib.Nat.{mod-lt}
use turbobond.Base.Floats.{Floats, fsum, max_by, min_by}
use turbobond.Links.{Link, effective_weight}
use turbobond.Scheduler.{
  BondScheduler, SchedulerMode, weighted, lowest_latency, redundant, scan, try_link, with_counters,
  counters_of, paying, credit, with_per_link, pick_loop, weighted_pick, picked, one_link, choose_by,
  choose, accounted, select_from,
}

get_elem?_in :
    {A : Type 0} (xs : List A) (i : ℕ) → i < length xs → (x : A) × (get_elem? xs i ≡ some x)
get_elem?_in [] i h = absurd (omega arith)
get_elem?_in (x ∷ xs) zero h = (x, refl)
get_elem?_in (x ∷ xs) (suc i) h = get_elem?_in xs i (omega arith)

get_elem?-All :
    {A : Type 0} (P : A → Type 0) (xs : List A) (i : ℕ) (x : A)
    → All P xs
    → get_elem? xs i ≡ some x
    → P x
get_elem?-All P [] i x a e = absurd (ground (arith, e))
get_elem?-All P (y ∷ xs) zero x a e = ground (arith, e)
get_elem?-All P (y ∷ xs) (suc i) x a e = get_elem?-All P xs i x a.1 e

module _ {F : Type 0} (fl : Floats F) where
  -- A link that the loop names, if it names one, has what all candidates have.
  abbrev Named : (Link F → Type 0) → Option (Option (Link F) × BondScheduler F) → Type 0
  Named P none = ⊥
  Named P (some (none, s)) = Unit {0}
  Named P (some (some l, s)) = P l

  try_link-Named :
      (P : Link F → Type 0) (l : Link F) (i n : ℕ) (len : F) (s : BondScheduler F)
      (rest : Option (Option (Link F) × BondScheduler F))
      → P l
      → Named P rest
      → Named P (try_link fl l i n len s rest)
  unfolding try_link
  try_link-Named P l i n len s rest p q =
      elim (fl.le len ((counters_of fl (l.link_id) (s.stats.per_link)).deficit))
        as (λ b. Named P (if b then some (some l, paying fl l i n len s) else rest)) [
          | true ↦ p
          | false ↦ q
        ]

  scan-Named :
      (P : Link F → Type 0) (cs : List (Link F)) (n : F) (offset left : ℕ) (s : BondScheduler F)
      → 1 ≤ length cs
      → All P cs
      → Named P (scan fl cs n offset left s)
  unfolding scan
  scan-Named P cs n offset zero s h a = tt
  scan-Named P cs n offset (suc left) s h a =
      let i = (s.cursor + offset) % length cs in
      let (l, e) = get_elem?_in cs i (mod-lt (s.cursor + offset) h) in
      rw (e, Named)
        (try_link-Named P l i (length cs) n (with_counters fl l s)
          (scan fl cs n (suc offset) left (with_counters fl l s)) (get_elem?-All P cs i l a e)
          (scan-Named P cs n (suc offset) left (with_counters fl l s) h a))

  pick_loop-Named :
      (P : Link F → Type 0) (cs : List (Link F)) (n total : F) (passes : ℕ) (s : BondScheduler F)
      → 1 ≤ length cs
      → All P cs
      → Named P (pick_loop fl cs n total passes s)
  unfolding pick_loop
  pick_loop-Named P cs n total zero s h a = tt
  pick_loop-Named P cs n total (suc passes) s h a =
      elim (scan fl cs n 0 (length cs) s)
          as (λ o.
            Named P o
            → Named P (elim o [
              | none ↦ none
              | some r ↦ elim (r.0) [
                | some link ↦ some (some link, r.1)
                | none ↦ pick_loop fl cs n total passes (
                    with_per_link fl
                      (credit fl cs (length cs) total (r.1.quantum) (r.1.stats.per_link)) (r.1))
              ]
            ])) [
              | none ↦ λ q. q
              | some (none, r) ↦ λ q.
                  pick_loop-Named P cs n total passes
                    (with_per_link fl
                      (credit fl cs (length cs) total (r.quantum) (r.stats.per_link)) r)
                    h a
              | some (some l, r) ↦ λ q. q
            ]
        (scan-Named P cs n 0 (length cs) s h a)

  of_if : {A : Type 0} (P : A → Type 0) (b : Bool) (x y : A) → P x → P y → P (if b then x else y)
  of_if P true x y p q = p
  of_if P false x y p q = q

  max_by-All :
      {A : Type 0} (P : A → Type 0) (key : A → F) (xs : List A) (x : A)
      → P x
      → All P xs
      → P (max_by fl key x xs)
  unfolding max_by
  max_by-All P key [] x p a = p
  max_by-All P key (y ∷ ys) x p a =
      max_by-All P key ys (if fl.lt (key x) (key y) then y else x)
        (of_if P (fl.lt (key x) (key y)) y x a.0 p) a.1

  min_by-All :
      {A : Type 0} (P : A → Type 0) (key : A → F) (xs : List A) (x : A)
      → P x
      → All P xs
      → P (min_by fl key x xs)
  unfolding min_by
  min_by-All P key [] x p a = p
  min_by-All P key (y ∷ ys) x p a =
      min_by-All P key ys (if fl.lt (key y) (key x) then y else x)
        (of_if P (fl.lt (key y) (key x)) y x a.0 p) a.1

  -- A pick that answers with a link that has what all candidates have.
  abbrev Picks : (Link F → Type 0) → Option (Link F × BondScheduler F) → Type 0
  Picks P none = ⊥
  Picks P (some (l, s)) = P l

  picked-Picks :
      (P : Link F → Type 0) (l : Link F) (ls : List (Link F))
      (o : Option (Option (Link F) × BondScheduler F))
      → All P (l ∷ ls)
      → Named P o
      → Picks P (picked fl l ls o)
  unfolding picked
  picked-Picks P l ls none a q = q
  picked-Picks P l ls (some (some m, s)) a q = q
  picked-Picks P l ls (some (none, s)) a q = max_by-All P (effective_weight fl) ls l a.0 a.1

  weighted_pick-Picks :
      (P : Link F → Type 0) (l : Link F) (ls : List (Link F)) (n : ℕ) (s : BondScheduler F)
      → All P (l ∷ ls)
      → Picks P (weighted_pick fl l ls n s)
  unfolding weighted_pick
  weighted_pick-Picks P l ls n s a =
      let total = fsum fl (map (effective_weight fl) (l ∷ ls)) (fl.of_ratio 0 1) in
      let passes = length (l ∷ ls) * 2 + 2 in
      let loop = pick_loop fl (l ∷ ls) (fl.of_ratio n 1) total passes s in
      of_if (Picks P) (fl.le total (fl.of_ratio 0 1)) (some (l, s)) (picked fl l ls loop) a.0 (
        picked-Picks P l ls loop a
          (pick_loop-Named P (l ∷ ls) (fl.of_ratio n 1) total passes s (omega arith) a))

  -- A function that answers with links that have what all candidates have, at least one.
  abbrev pub Answers : (Link F → Type 0) → Option (List (Link F) × BondScheduler F) → Type 0
  Answers P none = ⊥
  Answers P (some (chosen, s)) = (1 ≤ length chosen) × All P chosen

  one_link-Answers :
      (P : Link F → Type 0) (o : Option (Link F × BondScheduler F))
      → Picks P o
      → Answers P (one_link fl o)
  unfolding one_link
  one_link-Answers P none q = q
  one_link-Answers P (some (l, s)) q = (omega arith, (q, tt))

  choose_by-Answers :
      (P : Link F → Type 0) (mode : SchedulerMode) (l : Link F) (ls : List (Link F)) (n : ℕ)
      (s : BondScheduler F)
      → All P (l ∷ ls)
      → Answers P (choose_by fl mode l ls n s)
  unfolding choose_by
  choose_by-Answers P redundant l ls n s a = (omega arith, a)
  choose_by-Answers P lowest_latency l ls n s a = (omega arith, (min_by-All P _ ls l a.0 a.1, tt))
  choose_by-Answers P weighted l ls n s a =
      one_link-Answers P (weighted_pick fl l ls n s) (weighted_pick-Picks P l ls n s a)

  choose-Answers :
      (P : Link F → Type 0) (l : Link F) (ls : List (Link F)) (n : ℕ) (critical : Bool)
      (s : BondScheduler F)
      → All P (l ∷ ls)
      → Answers P (choose fl l ls n critical s)
  unfolding choose
  choose-Answers P l ls n true s a = (omega arith, a)
  choose-Answers P l ls n false s a = choose_by-Answers P (s.mode) l ls n s a

  accounted-Answers :
      (P : Link F → Type 0) (n : ℕ) (o : Option (List (Link F) × BondScheduler F))
      → Answers P o
      → Answers P (accounted fl n o)
  unfolding accounted
  accounted-Answers P n none q = q
  accounted-Answers P n (some r) q = q

  pub select_from-Answers :
      (P : Link F → Type 0) (l : Link F) (ls : List (Link F)) (n : ℕ) (critical : Bool)
      (s : BondScheduler F)
      → All P (l ∷ ls)
      → Answers P (select_from fl (l ∷ ls) n critical s)
  unfolding select_from
  select_from-Answers P l [] n critical s a = (omega arith, a)
  select_from-Answers P l (k ∷ ls) n critical s a =
      accounted-Answers P n (choose fl l (k ∷ ls) n critical s)
        (choose-Answers P l (k ∷ ls) n critical s a)
