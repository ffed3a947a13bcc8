-- ===== src/Ports/Lowest.antt =====
-- The search for the lowest port, which `Endpoint` and the host port strategy share.
use testcontainers_go.Base.{
  ◌≡◌, refl, sym, subst, ◌≤◌, ◌<◌, String, ◌=s◌, =s_iff, ◌≢◌, true, false, List, [], ◌∷◌, arith,
  All, ◌⊎◌, inl, inr, any, Bool-cases,
}
use testcontainers_go.Wait.Target.{PortEntry, PortApi}
use testcontainers_go.Wait.Port.{lowest_port, lower}

module _ (P : PortApi) where
  below_best : (p b : String) → b ≢ "" → lower P p b ≡ true → P.int p < P.int b
  unfolding lower
  below_best p b n h = ground (arith, =s_iff b "")

  above_best : (p b : String) → lower P p b ≡ false → (P.int b ≤ P.int p) × (b ≢ "")
  unfolding lower
  above_best p b h = ground (arith, =s_iff b "")

  -- `p` is the best so far, or one of the keys, and none of them is lower.
  abbrev pub IsLowest : List PortEntry → String → String → Type 0
  IsLowest es best p =
      ((p ≡ best) ⊎ (any (λ e. e.port =s p) es ≡ true))
      × (P.int p ≤ P.int best)
      × All (λ e. P.int p ≤ P.int e.port) es

  first-IsLowest :
      (e : PortEntry) (es : List PortEntry) (best p : String)
      → P.int e.port < P.int best
      → IsLowest es e.port p
      → IsLowest (e ∷ es) best p
  first-IsLowest e es best p l (m, le, rest) =
      (inr (ground (arith, m, =s_iff e.port p)), omega arith, (le, rest))

  later-IsLowest :
      (e : PortEntry) (es : List PortEntry) (best p : String)
      → P.int best ≤ P.int e.port
      → IsLowest es best p
      → IsLowest (e ∷ es) best p
  later-IsLowest e es best p l (m, le, rest) = (ground (arith, m), le, (omega arith, rest))

  lowest_port-IsLowest :
      (es : List PortEntry) (best : String)
      → best ≢ ""
      → All (λ e. e.port ≢ "") es
      → IsLowest es best (lowest_port P es best)
  unfolding lowest_port
  lowest_port-IsLowest [] best b h = (inl refl, omega arith, tt)
  lowest_port-IsLowest (e ∷ es) best b (n, h) = elim (Bool-cases (lower P e.port best)) [
    | inl l ↦
        let q : lowest_port P (e ∷ es) best ≡ lowest_port P es e.port = rw l refl in
        subst (IsLowest (e ∷ es) best) (sym q) (
          first-IsLowest e es best _ (below_best e.port best b l)
            (lowest_port-IsLowest es e.port n h))
    | inr l ↦
        let q : lowest_port P (e ∷ es) best ≡ lowest_port P es best = rw l refl in
        subst (IsLowest (e ∷ es) best) (sym q) (
          later-IsLowest e es best _ (above_best e.port best l).0
            (lowest_port-IsLowest es best b h))
  ]

  -- Among ports that have names, at least one of them, the search for the lowest finds one of
  -- them, and none of them has a lower number.
  pub lowest_port_lem :
      (e : PortEntry) (es : List PortEntry)
      → All (λ k. k.port ≢ "") (e ∷ es)
      → (any (λ k. k.port =s lowest_port P (e ∷ es) "") (e ∷ es) ≡ true)
        × All (λ k. P.int (lowest_port P (e ∷ es) "") ≤ P.int k.port) (e ∷ es)
  unfolding lowest_port lower
  lowest_port_lem e es (n, h) =
      let (m, le, rest) = lowest_port-IsLowest es e.port n h in
      (ground (arith, m, =s_iff e.port (lowest_port P es e.port)), (le, rest))
