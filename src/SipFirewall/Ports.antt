-- ===== src/SipFirewall/Ports.antt =====
-- turbobond/sip/firewall.py: the ports that the rules are about.
use turbobond.Base.{
  ℕ, ◌<◌, ◌≡◌, refl, ◌∙◌, ◌||◌, List, [], ◌∷◌, ◌++◌, All, All-map, elem, ltb, ltb→lt, ◌==◌,
  if_split, arith,
}
use turbobond.SipFirewall.{SipConfig, place, sorted_set, all_ports}

-- Each number is below all that follow.
abbrev pub Ascending : List ℕ → Type 0
Ascending [] = Unit
Ascending (p ∷ ps) = All (λ q. p < q) ps × Ascending ps

elem-place : (p q : ℕ) (l : List ℕ) → elem p (place q l) ≡ ((q == p) || elem p l)
unfolding place elem
elem-place p q [] = ground arith
elem-place p q (r ∷ l) = ground (arith, elem-place p q l)

place-All : (P : ℕ → Type 0) (q : ℕ) (l : List ℕ) → P q → All P l → All P (place q l)
unfolding place
place-All P q [] h o = (h, tt)
place-All P q (r ∷ l) h (o, os) =
    if_split (All P) (q == r) _ _ (λ e. (o, os))
      (λ e. if_split (All P) (ltb q r) _ _ (λ f. (h, (o, os))) (λ f. (o, place-All P q l h os)))

place-Ascending : (q : ℕ) (l : List ℕ) → Ascending l → Ascending (place q l)
unfolding place
place-Ascending q [] o = (tt, tt)
place-Ascending q (r ∷ l) (o, os) =
    if_split Ascending (q == r) _ _ (λ e. (o, os))
      (λ e.
        if_split Ascending (ltb q r) _ _
          (λ f. ((ground arith, All-map (λ x h. omega (arith, h, ltb→lt q r f)) l o), (o, os)))
          (λ f. (place-All (λ x. r < x) q l (ground arith) o, place-Ascending q l os)))

sorted_set-Ascending : (l : List ℕ) → Ascending (sorted_set l)
unfolding sorted_set
sorted_set-Ascending [] = tt
sorted_set-Ascending (p ∷ l) = place-Ascending p (sorted_set l) (sorted_set-Ascending l)

elem-sorted_set : (p : ℕ) (l : List ℕ) → elem p (sorted_set l) ≡ elem p l
unfolding sorted_set elem
elem-sorted_set p [] = refl
elem-sorted_set p (q ∷ l) = ground (arith, elem-place p q (sorted_set l), elem-sorted_set p l)

elem-append : (p : ℕ) (l m : List ℕ) → elem p (l ++ m) ≡ (elem p l || elem p m)
unfolding elem
elem-append p [] m = refl
elem-append p (q ∷ l) m = ground (arith, elem-append p l m)

-- The ports of the rules ascend strictly, and are exactly those of the two lists of the configuration.
pub all_ports-elem :
    (cfg : SipConfig) (p : ℕ)
    → Ascending (all_ports cfg)
      × (elem p (all_ports cfg) ≡ (elem p (cfg.signalling_ports) || elem p (cfg.tls_ports)))
unfolding all_ports
all_ports-elem cfg p = (
  sorted_set-Ascending (cfg.signalling_ports ++ cfg.tls_ports),
  elem-sorted_set p (cfg.signalling_ports ++ cfg.tls_ports)
      ∙ elem-append p (cfg.signalling_ports) (cfg.tls_ports),
)
