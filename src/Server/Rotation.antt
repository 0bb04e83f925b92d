-- ===== src/Server/Rotation.antt =====
-- turbobond/bond/server.py: the return traffic goes round all the links that a client has up.
use turbobond.Base.{
  ℕ, zero, suc, ◌+◌, ◌-◌, ◌%◌, ◌<◌, ◌≡◌, refl, sym, ap, ◌∙◌, Option, some, List, [], ◌∷◌, length,
  get_elem?, arith,
}
use native.Mathlib.Nat.{mod-lt, mod-eq_of_lt, mod-add-mod, add-mod-mod, add-mod_right}
use turbobond.Server.{PeerLink, Session}
use turbobond.Server.Downstream.{live_links, return_from, pick_return_link}

-- The links of `n` picks in a row, while the clients' links stay as they are.
unfoldable pub picks : ℕ → ℕ → Session → List (Option PeerLink)
picks now zero s = []
picks now (suc n) s = (pick_return_link now s).0 ∷ picks now n (pick_return_link now s).1

-- The links of a pick, by the cursor.
pick-get_elem? :
    (now : ℕ) (s : Session) (l : PeerLink) (ls : List PeerLink)
    → live_links now s ≡ l ∷ ls
    → pick_return_link now s
      ≡ (get_elem? (l ∷ ls) (s.cursor % length (l ∷ ls)), record s { cursor = s.cursor + 1 })
unfolding pick_return_link return_from
pick-get_elem? now s l ls e = rw (e) refl

live_links_cursor :
    (now c : ℕ) (s : Session) → live_links now (record s { cursor = c }) ≡ live_links now s
unfolding live_links
live_links_cursor now c s = refl

get_elem?-picks :
    (now n i : ℕ) (s : Session) (l : PeerLink) (ls : List PeerLink)
    → live_links now s ≡ l ∷ ls
    → i < n
    → get_elem? (picks now n s) i ≡ some (get_elem? (l ∷ ls) ((s.cursor + i) % length (l ∷ ls)))
unfolding picks
get_elem?-picks now zero i s l ls e h = absurd (omega arith)
get_elem?-picks now (suc n) zero s l ls e h =
    let z : s.cursor ≡ s.cursor + 0 = omega arith in
    ap (λ r. some r.0) (pick-get_elem? now s l ls e)
    ∙ ap (λ c. some (get_elem? (l ∷ ls) (c % length (l ∷ ls)))) z
get_elem?-picks now (suc n) (suc i) s l ls e h =
    let z : s.cursor + 1 + i ≡ s.cursor + suc i = omega arith in
    ap (λ r. get_elem? (picks now n r.1) i) (pick-get_elem? now s l ls e)
    ∙ (get_elem?-picks now n i (record s { cursor = s.cursor + 1 }) l ls
          (live_links_cursor now (s.cursor + 1) s ∙ e) (omega arith)
        ∙ ap (λ c. some (get_elem? (l ∷ ls) (c % length (l ∷ ls)))) z)

rotated : (c m k : ℕ) → m < k → (c + (m + k - c % k) % k) % k ≡ m
rotated c m k h =
    let fall : c % k + (m + k - c % k) ≡ m + k = omega (arith, mod-lt c {m = k} (omega arith)) in
    add-mod-mod c (m + k - c % k) k
    ∙ (sym (mod-add-mod c k (m + k - c % k))
        ∙ (ap (λ x. x % k) fall ∙ (add-mod_right m k ∙ mod-eq_of_lt h)))

-- While the links that are alive stay the same, as many picks in a row as there are such links reach
-- each of them.
pub picks_reach :
    (now : ℕ) (s : Session) (l : PeerLink) (ls : List PeerLink) (m : ℕ)
    → live_links now s ≡ l ∷ ls
    → m < length (l ∷ ls)
    → (i : ℕ) × (i < length (l ∷ ls))
      × (get_elem? (picks now (length (l ∷ ls)) s) i ≡ some (get_elem? (l ∷ ls) m))
picks_reach now s l ls m e h =
    let k = length (l ∷ ls) in
    let i = (m + k - s.cursor % k) % k in
    let small : i < k = mod-lt (m + k - s.cursor % k) {m = k} (omega arith) in
    (
      i,
      small,
      get_elem?-picks now k i s l ls e small
          ∙ ap (λ j. some (get_elem? (l ∷ ls) j)) (rotated (s.cursor) m k h),
    )
