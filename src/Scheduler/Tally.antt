-- ===== src/Scheduler/Tally.antt =====
-- turbobond/bond/scheduler.py: the totals with the counters of one link id, and what counting adds to them.
use turbobond.Base.{
  ℕ, ◌+◌, ◌*◌, ◌≡◌, refl, sym, ap, ◌∙◌, List, [], ◌∷◌, arith, ◌==◌, if◌then◌else◌, Option-cases,
  Bool, true, false, ==_iff, Bool-cases, inl, inr,
}
use turbobond.Base.Dict.{Dict, lookup, insert, lookup-insert}
use turbobond.Base.Floats.{Floats}
use turbobond.Links.{Link, effective_weight}
use turbobond.Scheduler.{
  BondScheduler, LinkCounters, no_counters, counters_of, setdefault, sync_counters, credit_one,
  credit, count_one, count_all, account,
}

-- The numbers of a link id and of the totals, which a pick does not change.
pub record Tally : Type 0 where
  pub packets : ℕ
  pub bytes : ℕ
  pub total_packets : ℕ
  pub total_bytes : ℕ
  pub dropped : ℕ

-- How many of the links have the id.
unfoldable pub times : {F : Type 0} → ℕ → List (Link F) → ℕ
times key [] = 0
times key (l ∷ ls) = let rest = times key ls in if l.link_id == key then rest + 1 else rest

if_true : {A : Type 0} {b : Bool} (x y : A) → b ≡ true → (if b then x else y) ≡ x
if_true x y e = rw (e) refl

if_false : {A : Type 0} {b : Bool} (x y : A) → b ≡ false → (if b then x else y) ≡ y
if_false x y e = rw (e) refl

module _ {F : Type 0} (fl : Floats F) (key : ℕ) where
  -- The packets and the bytes that are counted for the link id.
  unfoldable pub packets_of : Dict (LinkCounters F) → ℕ
  packets_of d = (counters_of fl key d).packets

  unfoldable pub bytes_of : Dict (LinkCounters F) → ℕ
  bytes_of d = (counters_of fl key d).bytes

  unfoldable pub tally : BondScheduler F → Tally
  tally s = record {
    packets = packets_of (s.stats.per_link);
    bytes = bytes_of (s.stats.per_link);
    total_packets = s.stats.total_packets;
    total_bytes = s.stats.total_bytes;
    dropped = s.stats.dropped_packets;
  }

  pub packets-insert :
      (k : ℕ) (c : LinkCounters F) (d : Dict (LinkCounters F))
      → packets_of (insert k c d) ≡ (if k == key then c.packets else packets_of d)
  unfolding packets_of counters_of
  packets-insert k c d = ground (arith, lookup-insert k key c d)

  pub bytes-insert :
      (k : ℕ) (c : LinkCounters F) (d : Dict (LinkCounters F))
      → bytes_of (insert k c d) ≡ (if k == key then c.bytes else bytes_of d)
  unfolding bytes_of counters_of
  bytes-insert k c d = ground (arith, lookup-insert k key c d)

  -- New counters of the same packets and bytes change nothing.
  pub insert_sums :
      (k : ℕ) (c : LinkCounters F) (d : Dict (LinkCounters F))
      → c.packets ≡ (counters_of fl k d).packets
      → c.bytes ≡ (counters_of fl k d).bytes
      → (packets_of (insert k c d) ≡ packets_of d) × (bytes_of (insert k c d) ≡ bytes_of d)
  unfolding packets_of bytes_of counters_of
  insert_sums k c d p b = elim (Bool-cases (k == key)) [
    | inl e ↦
        let same = (==_iff k key).0 e in
        (
          packets-insert k c d ∙ if_true _ _ e ∙ p ∙ ap (λ j. (counters_of fl j d).packets) same,
          bytes-insert k c d ∙ if_true _ _ e ∙ b ∙ ap (λ j. (counters_of fl j d).bytes) same,
        )
    | inr e ↦ (packets-insert k c d ∙ if_false _ _ e, bytes-insert k c d ∙ if_false _ _ e)
  ]

  pub setdefault_sums :
      (k : ℕ) (d : Dict (LinkCounters F))
      → (packets_of (setdefault fl k d) ≡ packets_of d)
        × (bytes_of (setdefault fl k d) ≡ bytes_of d)
  unfolding setdefault counters_of
  setdefault_sums k d = elim (Option-cases (lookup k d)) [
    | inl e ↦
        rw (e, setdefault)
          (insert_sums k (no_counters fl) d (rw (e, counters_of) refl) (rw (e, counters_of) refl))
    | inr (c, e) ↦ rw (e, setdefault) (refl, refl)
  ]

  pub sync_counters_sums :
      (ls : List (Link F)) (d : Dict (LinkCounters F))
      → (packets_of (sync_counters fl ls d) ≡ packets_of d)
        × (bytes_of (sync_counters fl ls d) ≡ bytes_of d)
  unfolding sync_counters
  sync_counters_sums [] d = (refl, refl)
  sync_counters_sums (l ∷ ls) d =
      ground
        (arith, sync_counters_sums ls (setdefault fl (l.link_id) d), setdefault_sums (l.link_id) d)

  credit_one_sums :
      (l : Link F) (n : ℕ) (w : F) (q : ℕ) (d : Dict (LinkCounters F))
      → (packets_of (credit_one fl l n w q d) ≡ packets_of d)
        × (bytes_of (credit_one fl l n w q d) ≡ bytes_of d)
  unfolding credit_one
  credit_one_sums l n w q d =
      let per_link = setdefault fl (l.link_id) d in
      let old = counters_of fl (l.link_id) per_link in
      let amount =
        fl.mul (fl.mul (fl.of_ratio q 1) (fl.div (effective_weight fl l) w)) (fl.of_ratio n 1) in
      let new = record old { deficit = fl.add (old.deficit) amount } in
      let kept = insert_sums (l.link_id) new per_link refl refl in
      let sums = setdefault_sums (l.link_id) d in (kept.0 ∙ sums.0, kept.1 ∙ sums.1)

  pub credit_sums :
      (ls : List (Link F)) (n : ℕ) (w : F) (q : ℕ) (d : Dict (LinkCounters F))
      → (packets_of (credit fl ls n w q d) ≡ packets_of d)
        × (bytes_of (credit fl ls n w q d) ≡ bytes_of d)
  unfolding credit
  credit_sums [] n w q d = (refl, refl)
  credit_sums (l ∷ ls) n w q d =
      let one = credit_one_sums l n w q d in
      let rest = credit_sums ls n w q (credit_one fl l n w q d) in (rest.0 ∙ one.0, rest.1 ∙ one.1)

  count_one_sums :
      (l : Link F) (n : ℕ) (d : Dict (LinkCounters F))
      → (packets_of (count_one fl l n d)
          ≡ (if l.link_id == key then packets_of d + 1 else packets_of d))
        × (bytes_of (count_one fl l n d)
            ≡ (if l.link_id == key then bytes_of d + n else bytes_of d))
  unfolding count_one packets_of bytes_of counters_of
  count_one_sums l n d =
      let k = l.link_id in
      let per_link = setdefault fl k d in
      let old = counters_of fl k per_link in
      let new = record old { packets = old.packets + 1; bytes = old.bytes + n } in
      elim (Bool-cases (k == key)) [
        | inl e ↦
            let (sp, sb) = setdefault_sums k d in
            let same = (==_iff k key).0 e in
            (
              packets-insert k new per_link
                  ∙ if_true _ _ e
                  ∙ ap (λ j. (counters_of fl j per_link).packets + 1) same
                  ∙ ap (λ x. x + 1) sp
                  ∙ sym (if_true _ _ e),
              bytes-insert k new per_link
                  ∙ if_true _ _ e
                  ∙ ap (λ j. (counters_of fl j per_link).bytes + n) same
                  ∙ ap (λ x. x + n) sb
                  ∙ sym (if_true _ _ e),
            )
        | inr e ↦
            let (sp, sb) = setdefault_sums k d in
            (
              packets-insert k new per_link ∙ if_false _ _ e ∙ sp ∙ sym (if_false _ _ e),
              bytes-insert k new per_link ∙ if_false _ _ e ∙ sb ∙ sym (if_false _ _ e),
            )
      ]

  distrib_suc : (n k : ℕ) → n * (k + 1) ≡ n + n * k
  distrib_suc n k = ground arith

  pub count_all_sums :
      (ls : List (Link F)) (n : ℕ) (d : Dict (LinkCounters F))
      → (packets_of (count_all fl ls n d) ≡ packets_of d + times key ls)
        × (bytes_of (count_all fl ls n d) ≡ bytes_of d + n * times key ls)
  unfolding count_all times
  count_all_sums [] n d = (omega arith, omega arith)
  count_all_sums (l ∷ ls) n d = ground (
    arith,
    count_one_sums l n d,
    count_all_sums ls n (count_one fl l n d),
    distrib_suc n (times key ls),
  )

  -- The tally of a scheduler that has counted a packet for its links.
  pub tally-account :
      (chosen : List (Link F)) (n : ℕ) (s : BondScheduler F)
      → tally (account fl chosen n s) ≡ record {
        packets = (tally s).packets + times key chosen;
        bytes = (tally s).bytes + n * times key chosen;
        total_packets = (tally s).total_packets + 1;
        total_bytes = (tally s).total_bytes + n;
        dropped = (tally s).dropped;
      }
  unfolding tally account
  tally-account chosen n s =
      let sums = count_all_sums chosen n (s.stats.per_link) in rw (sums.0, sums.1) refl
