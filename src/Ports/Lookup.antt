-- ===== src/Ports/Lookup.antt =====
-- Which binding of a port is found.
use testcontainers_go.Base.{
  ◌≡◌, refl, ◌↔◌, ◌≢◌, =s_iff, String, ◌<>◌, Bool, true, false, ◌&&◌, ◌||◌, not, none, some, List,
  [], ◌∷◌, ◌++◌, M, arith, any, all, mem_text, contains,
}
use testcontainers_go.Errors.{new, Result, ok, err}
use testcontainers_go.Wait.Target.{PortEntry, PortApi}
use testcontainers_go.Wait.Port.{lowest_port}
use testcontainers_go.Ports.{
  Network, names_port, first_bound, mapped_in, mapped_port, endpoint, lowest_endpoint,
  port_endpoint, port_at_host, address, port_not_found, check_exposed, check_ports_mapped,
}

abbrev pub no_binding : List String → Bool
no_binding [] = true
no_binding (b ∷ bs) = false

module _ (P : PortApi) (port : String) where
  -- An entry for the port that has a binding.
  abbrev pub serves : PortEntry → Bool
  serves e = names_port P port e.port && not (no_binding e.bindings)

  first_bound-none :
      (es : List PortEntry)
      → any serves es ≡ false
      → first_bound P es port ≡ ("", some (new port_not_found))
  unfolding first_bound
  first_bound-none [] h = refl
  first_bound-none (e ∷ es) h = ground (arith, first_bound-none es)

  first_bound-at :
      (xs ys : List PortEntry) (e : PortEntry) (b : String) (bs : List String)
      → any serves xs ≡ false
      → names_port P port e.port ≡ true
      → e.bindings ≡ b ∷ bs
      → first_bound P (xs ++ e ∷ ys) port ≡ P.new_port (P.proto e.port) b
  unfolding first_bound
  first_bound-at [] ys e b bs h n q = ground arith
  first_bound-at (x ∷ xs) ys e b bs h n q = ground (arith, first_bound-at xs ys e b bs)

any-append :
    {A : Type 0} (p : A → Bool) (xs ys : List A) → any p (xs ++ ys) ≡ (any p xs || any p ys)
any-append p [] ys = refl
any-append p (x ∷ xs) ys = ground (arith, any-append p xs ys)

module _ {W Ctx : Type 0} (P : PortApi) (inspect : Ctx → M W (Result Network))
    (host : Ctx → M W (Result String)) where
  -- Outside the host network, where one entry alone is for the port and has a binding, the mapped
  -- port is the first binding of that entry, wherever the iteration over the map meets it.
  pub mapped_port_found :
      (ctx : Ctx) (port mode : String) (xs ys : List PortEntry) (e : PortEntry) (b : String)
      (bs : List String) (w v : W)
      → inspect ctx w ≡ (ok (record { network_mode = mode; ports = xs ++ e ∷ ys }), v)
      → mode ≢ "host"
      → any (serves P port) (xs ++ ys) ≡ false
      → names_port P port e.port ≡ true
      → e.bindings ≡ b ∷ bs
      → mapped_port P inspect host ctx port w ≡ (P.new_port (P.proto e.port) b, v)
  unfolding mapped_port mapped_in
  mapped_port_found ctx port mode xs ys e b bs w v h m u n q = rw h (
      ground (
        arith,
        =s_iff mode "host",
        any-append (serves P port) xs ys,
        first_bound-at P port xs ys e b bs,
      ))

  -- Outside the host network, Endpoint fails with "port not found" where no entry with a binding
  -- is for the port of the lowest number, also if another port is bound.
  pub endpoint_unbound :
      (ctx : Ctx) (proto mode h : String) (es : List PortEntry) (w u v x : W)
      → inspect ctx w ≡ (ok (record { network_mode = mode; ports = es }), u)
      → host ctx u ≡ (ok h, v)
      → inspect ctx v ≡ (ok (record { network_mode = mode; ports = es }), x)
      → mode ≢ "host"
      → any (serves P (lowest_port P es "")) es ≡ false
      → endpoint P inspect host ctx proto w ≡ (err (new "port not found"), x)
  unfolding endpoint lowest_endpoint port_endpoint port_at_host mapped_port mapped_in address
  endpoint_unbound ctx proto mode h es w u v x i1 hh i2 m n = rw i1 (
      rw hh
        (rw i2 (ground (arith, =s_iff mode "host", first_bound-none P (lowest_port P es "") es n))))

-- Whether a port is mapped, as it is named or with tcp where it names no protocol.
abbrev pub is_mapped : List String → String → Bool
is_mapped mapped port =
    mem_text port mapped || (not (contains port "/") && mem_text (port <> "/tcp") mapped)

check_exposed-all :
    (mapped ports : List String)
    → (check_exposed mapped ports ≡ none) ↔ (all (is_mapped mapped) ports ≡ true)
unfolding check_exposed
check_exposed-all mapped [] = (λ _. refl, λ _. refl)
check_exposed-all mapped (p ∷ ps) = ground (arith, check_exposed-all mapped ps)

-- The ports are reported as mapped exactly when the exposed ports parse and each of them is a key
-- of the map, as it is named or, where it names no protocol, with tcp.
pub check_ports_mapped_lem :
    (mapped : List String) (parsed : Result (List String))
    → (check_ports_mapped mapped parsed ≡ none)
      ↔ ((ports : List String) × (parsed ≡ ok ports) × (all (is_mapped mapped) ports ≡ true))
unfolding check_ports_mapped
check_ports_mapped_lem mapped (err e) = (λ h. cc, λ (ports, h, _). cc)
check_ports_mapped_lem mapped (ok ps) = (
  λ h. (ps, refl, (check_exposed-all mapped ps).0 h),
  λ (ports, h, a). (check_exposed-all mapped ps).1 (ground arith),
)
