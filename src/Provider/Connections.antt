-- ===== src/Provider/Connections.antt =====
-- The connections to the reaper that the provider makes, counted.
use testcontainers_go.Base.{
  ℕ, suc, ◌≡◌, refl, ◌∙◌, ap, Bool, not, ◌&&◌, Option, none, some, Bool-cases, inl, inr,
}
use testcontainers_go.Errors.{Error, Result, ok, err}
use testcontainers_go.Errors.Flow.{and_then, mapped_error, ◌>>=◌, wrapped, undone, done}
use testcontainers_go.Errors.Flow.Keeping.{Keeps, wrapped-Keeps, bind-after}
use testcontainers_go.Provider.{Live, at_world}
use testcontainers_go.Provider.Reaping.{Reaping, connected, send_signal}
use testcontainers_go.Provider.Creation.{Made, container_signal}

-- A number of open connections to the reaper: connecting opens one, a send on its channel ends it.
pub record IsReaping {Ctx Reaper Signal W : Type 0} (P : Reaping Ctx Reaper Signal W) (n : W → ℕ)
    : Type 0 where
  pub reuse : (ctx : Ctx) → Keeps (λ l. n l.1) (P.reuse_or_create_reaper ctx)
  pub opened :
      (r : Reaper) (l l' : Live W) (s : Signal) → P.connect r l ≡ (ok s, l') → n l'.1 ≡ suc (n l.1)
  pub unopened :
      (r : Reaper) (l l' : Live W) (e : Error) → P.connect r l ≡ (err e, l') → n l'.1 ≡ n l.1
  pub ended : (s : Signal) (w : W) (k : ℕ) → n w ≡ suc k → n (P.send s w) ≡ k

-- One more where there is a channel.
abbrev pub counting : {Signal : Type 0} → Option Signal → ℕ → ℕ
counting none k = k
counting (some s) k = suc k

-- No connection is open more than before, but that of the container that was made.
abbrev pub Balanced : {Signal H W : Type 0} → (W → ℕ) → ℕ → Result (Made Signal H) × Live W → Type 0
Balanced n k (err e, l) = n l.1 ≡ k
Balanced n k (ok m, l) = n l.1 ≡ counting m.termination_signal k

-- A connection was made where there is a channel.
abbrev pub Signaled : {Signal W : Type 0} → (W → ℕ) → ℕ → Result (Option Signal) × Live W → Type 0
Signaled n k (err e, l) = n l.1 ≡ k
Signaled n k (ok s, l) = n l.1 ≡ counting s k

-- What is made carries the channel, and nothing else was opened or ended.
abbrev pub Carries :
    {Signal H W : Type 0} → (W → ℕ) → ℕ → Option Signal → Result (Made Signal H) × Live W → Type 0
Carries n k s (err e, l) = n l.1 ≡ k
Carries n k s (ok m, l) = (m.termination_signal ≡ s) × (n l.1 ≡ k)

module _ {Ctx Reaper Signal W : Type 0} (P : Reaping Ctx Reaper Signal W) (n : W → ℕ)
    (L : IsReaping P n) where
  connect-Signaled :
      (r : Reaper) (l : Live W) (c : Result Signal × Live W) (k : ℕ) (g : Error → Error)
      → P.connect r l ≡ c
      → n l.1 ≡ k
      → Signaled n k (and_then (mapped_error g c.0, c.1) (λ s. done (some s)))
  unfolding and_then mapped_error
  connect-Signaled r l (err e, l') k g h i = L.unopened r l l' e h ∙ i
  connect-Signaled r l (ok s, l') k g h i = L.opened r l l' s h ∙ ap (λ k. suc k) i

  pub connected-Signaled :
      (ctx : Ctx) (f g : Error → Error) (l : Live W) → Signaled n (n l.1) (connected P ctx f g l)
  unfolding connected ◌>>=◌ wrapped
  connected-Signaled ctx f g l =
      bind-after (λ l. n l.1) (Signaled n (n l.1)) (wrapped f (P.reuse_or_create_reaper ctx))
        (λ r. wrapped g (P.connect r) >>= (λ s. done (some s))) l
        (wrapped-Keeps (λ l. n l.1) f (P.reuse_or_create_reaper ctx) (L.reuse ctx)) (λ e l' h. h)
        (λ r l' h. connect-Signaled r l' (P.connect r l') (n l.1) g refl h)

  pub signal-Signaled :
      (ctx : Ctx) (b : Bool) (l : Live W) → Signaled n (n l.1) (container_signal P ctx b l)
  unfolding container_signal
  signal-Signaled ctx b l = elim (Bool-cases (not l.0.ryuk_disabled && not b)) [
    | inl e ↦ rw e (connected-Signaled ctx _ _ l)
    | inr e ↦ rw e refl
  ]

  pub send-ended :
      {H : Type 0} (s : Option Signal) (k : ℕ) (r : Result (Made Signal H) × Live W)
      → Carries n (counting s k) s r
      → Balanced n k (undone (send_signal P s) r)
  unfolding undone send_signal at_world
  send-ended none k (err e, l) h = h
  send-ended (some s) k (err e, (p, w)) h = L.ended s w k h
  send-ended s k (ok m, l) (h, i) = rw h i
