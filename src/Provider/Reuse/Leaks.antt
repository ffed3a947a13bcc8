-- ===== src/Provider/Reuse/Leaks.antt =====
-- What becomes of the connection to the reaper where a container is reused.
use testcontainers_go.Base.{
  ℕ, suc, ◌≡◌, refl, ◌∙◌, ap, subst, Bool-cases, inl, inr, String, true, not, Option, none, some,
  List,
}
use testcontainers_go.Errors.{Error, wrap, followed, ok}
use testcontainers_go.Errors.Flow.{and_then, ◌>>=◌}
use testcontainers_go.Errors.Flow.Keeping.{Keeps}
use testcontainers_go.Lifecycle.{ContainerLifecycleHooks}
use testcontainers_go.Container.{Client, started_hook, readied_hook, set_running, Live as Held}
use testcontainers_go.Provider.{Live}
use testcontainers_go.Provider.Reaping.{Reaping}
use testcontainers_go.Provider.Creation.{Made}
use testcontainers_go.Provider.Connections.{IsReaping, Signaled, connected-Signaled}
use testcontainers_go.Provider.Reuse.{
  Listed, reuse_signal, reused_container, readied, started_then, reuse_stage, reused,
}

module _ {Ctx Request Reaper Signal W : Type 0} (P : Reaping Ctx Reaper Signal W)
    (K : Client Ctx (Live W)) (session_id : String)
    (hooks : List (ContainerLifecycleHooks Ctx Request (Held (Live W)))) (n : W → ℕ) where
  -- No hook after a start or after readiness opens or ends a connection.
  pub record IsQuietReuse : Type 0 where
    pub started : (ctx : Ctx) → Keeps (λ s. n s.1.1) (started_hook K hooks ctx)
    pub readied : (ctx : Ctx) → Keeps (λ s. n s.1.1) (readied_hook K hooks ctx)

  module _ (L : IsReaping P n) (H : IsQuietReuse) where
    readied-kept :
        (m : Made Signal (List (ContainerLifecycleHooks Ctx Request (Held (Live W)))))
        (r : Option Error × Held (Live W))
        → n (readied P K session_id hooks m r).1.1 ≡ n r.1.1.1
    unfolding readied
    readied-kept m (some e, (c, l)) = refl
    readied-kept m (none, (c, l)) = refl

    started_then-kept :
        (ctx : Ctx) (r : Option Error × Held (Live W))
        → n (started_then P K session_id hooks ctx r).1.1.1 ≡ n r.1.1.1
    unfolding started_then set_running
    started_then-kept ctx (some e, s) = refl
    started_then-kept ctx (none, (c, l)) = H.readied ctx (record c { is_running = true }, l)

    stage-Keeps :
        (ctx : Ctx) (m : Made Signal (List (ContainerLifecycleHooks Ctx Request (Held (Live W)))))
        → Keeps (λ l. n l.1) (reuse_stage P K session_id hooks ctx m)
    unfolding reuse_stage
    stage-Keeps ctx m l =
        readied-kept m
          (started_then P K session_id hooks ctx (started_hook K hooks ctx (m.container, l)))
        ∙ started_then-kept ctx (started_hook K hooks ctx (m.container, l))
        ∙ H.started ctx (m.container, l)

    reuse_signal-Signaled :
        (ctx : Ctx) (l : Live W) → Signaled n (n l.1) (reuse_signal P K session_id hooks ctx l)
    unfolding reuse_signal
    reuse_signal-Signaled ctx l = elim (Bool-cases (not l.0.ryuk_disabled)) [
      | inl e ↦ rw e (
          connected-Signaled P n L ctx (wrap "reaper")
            (λ e. followed e "connecting to reaper failed") l)
      | inr e ↦ rw e refl
    ]

    -- If only the connecting to the reaper changes the number of open connections, a reuse of a
    -- container that has connected leaves one more open, also where it ends with an error.
    pub reused_leaks :
        (ctx : Ctx) (ports : List String) (c : Listed) (l l' : Live W) (s : Signal)
        → reuse_signal P K session_id hooks ctx l ≡ (ok (some s), l')
        → n (reused P K session_id hooks ctx ports c l).1.1 ≡ suc (n l.1)
    unfolding reused ◌>>=◌ and_then
    reused_leaks ctx ports c l l' s e =
        ap
          (λ r.
            n
              (and_then r (λ s.
                reuse_stage P K session_id hooks ctx
                  (reused_container P K session_id hooks ports s c))).1.1)
          e
        ∙ stage-Keeps ctx (reused_container P K session_id hooks ports (some s) c) l'
        ∙ subst (Signaled n (n l.1)) e (reuse_signal-Signaled ctx l)
