-- ===== src/Provider/Runs/Quiet.antt =====
-- That the steps of a creation, other than those at the reaper, leave alone what the calls of the
-- daemon leave alone.
use testcontainers_go.Base.{
  ℕ, ◌≡◌, refl, ◌∙◌, String, Bool, true, false, ◌=s◌, Option, none, some, List, [], ◌∷◌, Bool-cases,
  inl, inr,
}
use testcontainers_go.Base.Dict.{Dict, lookup}
use testcontainers_go.Errors.{Result, ok, err}
use testcontainers_go.Errors.Flow.{checked, wrapped}
use testcontainers_go.Errors.Flow.Keeping.{Keeps, bind-Keeps, then-Keeps}
use testcontainers_go.Provider.{
  NetworkResource, NetworkOptions, Daemon, Live, outside, without_bridge, default_network_of,
  get_default_network, set_default_network, assign_default_network, ensure_default_network,
  get_network,
}
use testcontainers_go.Provider.PreCreate.{Inputs, or_no_aliases}
use testcontainers_go.Provider.Creation.{Session, connect_network, connect_networks, create_call}

-- The number that stands for the open connections, and what the daemon's calls do to it: nothing.
module _ {Ctx I R Platform W : Type 0} (D : Daemon Ctx I W) (S : Session Ctx R Platform W)
    (n : W → ℕ) where
  pub record IsQuietDaemon : Type 0 where
    pub list : (ctx : Ctx) → Keeps n (D.network_list ctx)
    pub create :
        (ctx : Ctx) (name : String) (o : NetworkOptions I) → Keeps n (D.network_create ctx name o)
    pub inspect : (ctx : Ctx) (name : String) → Keeps n (D.network_inspect ctx name)
    pub close : (w : W) → n (D.close w) ≡ n w
    pub container_create :
        (ctx : Ctx) (i : Inputs R) (p : Option Platform) (name : String)
        → Keeps n (S.container_create ctx i p name)
    pub network_connect :
        (ctx : Ctx) (id c : String) (aliases : List String)
        → Keeps n (S.network_connect ctx id c aliases)

  module _ (Q : IsQuietDaemon) where
    default-Keeps :
        (ctx : Ctx) (name : String) (o : Option Bool)
        → Keeps n (default_network_of D S.default_labels ctx name o)
    unfolding default_network_of
    default-Keeps ctx name none w = refl
    default-Keeps ctx name (some true) w = refl
    default-Keeps ctx name (some false) w =
        then-Keeps n (D.network_create ctx _ _) _ (Q.create ctx _ _) (λ v. refl) w

    get_default-Keeps :
        (ctx : Ctx) → Keeps (λ l. n l.1) (get_default_network D S.default_labels ctx)
    unfolding get_default_network outside
    get_default-Keeps ctx (p, w) =
        bind-Keeps n (D.network_list ctx)
          (λ ns.
            default_network_of D S.default_labels ctx p.default_bridge_network_name
              (without_bridge p.default_bridge_network_name ns false))
          (Q.list ctx) (λ ns. default-Keeps ctx _ _) w

    assigned-kept :
        (r : Result String × Live W) → n (assign_default_network D S.default_labels r).1.1 ≡ n r.1.1
    unfolding assign_default_network set_default_network
    assigned-kept (err e, (p, w)) = refl
    assigned-kept (ok name, (p, w)) = refl

    pub ensure-Keeps :
        (ctx : Ctx) → Keeps (λ l. n l.1) (ensure_default_network D S.default_labels ctx)
    unfolding ensure_default_network
    ensure-Keeps ctx l = elim (Bool-cases (l.0.default_network =s "")) [
      | inl e ↦
          rw e
            (assigned-kept (get_default_network D S.default_labels ctx l) ∙ get_default-Keeps ctx l)
      | inr e ↦ rw e refl
    ]

    connect-kept :
        (ctx : Ctx) (id : String) (aliases : List String) (r : Result NetworkResource × Live W)
        → n (connect_network D S ctx id aliases r).1.1 ≡ n r.1.1
    unfolding connect_network wrapped checked outside
    connect-kept ctx id aliases (err e, l) = refl
    connect-kept ctx id aliases (ok nw, (p, w)) = Q.network_connect ctx nw.id id aliases w

    pub connects-Keeps :
        (ctx : Ctx) (id : String) (aliases : Dict (List String)) (ns : List String)
        → Keeps (λ l. n l.1) (connect_networks D S ctx id aliases ns)
    unfolding connect_networks get_network outside
    connects-Keeps ctx id aliases [] l = refl
    connects-Keeps ctx id aliases (m ∷ ns) l =
        then-Keeps (λ l. n l.1)
          (λ l.
            connect_network D S ctx id (or_no_aliases (lookup m aliases)) (get_network D ctx m l))
          (connect_networks D S ctx id aliases ns)
          (λ l. connect-kept ctx id _ (get_network D ctx m l) ∙ Q.inspect ctx m l.1)
          (connects-Keeps ctx id aliases ns) l

    pub create-Keeps :
        (ctx : Ctx) (name : String) (p : Option Platform) (i : Inputs R)
        → Keeps (λ l. n l.1) (create_call S ctx name p i)
    unfolding create_call wrapped outside
    create-Keeps ctx name p i (q, w) = Q.container_create ctx i p name w
