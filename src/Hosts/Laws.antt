-- ===== src/Hosts/Laws.antt =====
-- Which host is chosen, and what is reported where there is none.
use testcontainers_go.Base.{
  ◌≡◌, refl, ◌∙◌, ◌↔◌, ◌≢◌, inl, inr, String, ◌<>◌, Bool, true, false, ◌||◌, any, none, some, List,
  [], ◌∷◌, ◌++◌, map, arith, Bool-cases, Option-cases, if◌then◌else◌, All,
}
use testcontainers_go.Errors.{
  Error, Errors, new, joined, wrap, Result, ok, err, is, same, join, present, join_present, is_some,
  cons, nil,
}
use testcontainers_go.Hosts.Environment.{
  Machine, is_host_not_set, not_set_errors, err_socket_not_found, err_rootless_not_found,
  err_not_supported_windows,
}
use testcontainers_go.Hosts.{
  note_error, all_failed, first_socket, first_host, extract_docker_host, docker_host_sources,
  rootless_docker_socket_path, rootless_sources, is_windows, testcontainers_host_from_properties,
  docker_host_from_env, docker_host_from_context, docker_socket_path, docker_host_from_properties,
}

-- A source answers, and a daemon answers there; those before it do not answer, or no daemon does.
pub data FirstUsable (m : Machine) : List (Result String) → String → Type 0 where
  here :
      (host : String) {rs : List (Result String)}
      → m.check_host host ≡ none
      → FirstUsable m (ok host ∷ rs) host
  failed :
      (e : Error) {rs : List (Result String)} {host : String}
      → FirstUsable m rs host
      → FirstUsable m (err e ∷ rs) host
  unreachable :
      (other : String) (e : Error) {rs : List (Result String)} {host : String}
      → m.check_host other ≡ some e
      → FirstUsable m rs host
      → FirstUsable m (ok other ∷ rs) host

module _ (m : Machine) where
  all_failed-not_ok : (errs : List Error) (s host : String) → all_failed errs s ≢ ok host
  unfolding all_failed
  all_failed-not_ok errs s host = λ h. ground arith

  first_host-FirstUsable :
      (rs : List (Result String)) (errs : List Error) (host : String)
      → first_host m rs errs ≡ ok host
      → FirstUsable m rs host
  unfolding first_host
  first_host-FirstUsable [] errs host h =
      absurd (all_failed-not_ok errs err_socket_not_found host h)
  first_host-FirstUsable (err e ∷ rs) errs host h =
      failed e (first_host-FirstUsable rs (note_error e errs) host h)
  first_host-FirstUsable (ok other ∷ rs) errs host h = elim (Option-cases (m.check_host other)) [
    | inl e ↦ let same_host : other ≡ host = ground arith in rw (← same_host) (here other e)
    | inr (x, e) ↦ unreachable other x e (
        first_host-FirstUsable rs (errs ++ (wrap ("check host \"" <> other <> "\"") x ∷ [])) host
          (ground arith))
  ]

  FirstUsable-first_host :
      {rs : List (Result String)} {host : String}
      → FirstUsable m rs host
      → (errs : List Error) → first_host m rs errs ≡ ok host
  unfolding first_host
  FirstUsable-first_host (here host e) errs = rw (e, first_host)
  FirstUsable-first_host (failed e rest) errs = FirstUsable-first_host rest (note_error e errs)
  FirstUsable-first_host (unreachable other x e rest) errs =
      rw (e, first_host)
        (FirstUsable-first_host rest (errs ++ (wrap ("check host \"" <> other <> "\"") x ∷ [])))

  -- The docker host is the one of the first source, in the order asked, that names a host at which
  -- a daemon answers; what the sources before it reported makes no difference.
  pub extract_docker_host_ok :
      (host : String)
      → (extract_docker_host m ≡ ok host) ↔ FirstUsable m (docker_host_sources m) host
  unfolding extract_docker_host
  extract_docker_host_ok host =
      (first_host-FirstUsable (docker_host_sources m) [] host, λ u. FirstUsable-first_host u [])

-- An error of a source that is more than "not set".
abbrev Telling : Error → Type 0
Telling e = is_host_not_set e ≡ false

any-or :
    {A : Type 0} (f g : A → Bool) (xs : List A) → any (λ x. f x || g x) xs ≡ (any f xs || any g xs)
any-or f g [] = refl
any-or f g (x ∷ xs) = ground (arith, any-or f g xs)

All-snoc :
    (errs : List Error) (e : Error) → All Telling errs → Telling e → All Telling (errs ++ e ∷ [])
All-snoc [] e h t = (t, tt)
All-snoc (x ∷ errs) e h t = (h.0, All-snoc errs e h.1 t)

note_error-Telling :
    (e : Error) (errs : List Error) → All Telling errs → All Telling (note_error e errs)
unfolding note_error
note_error-Telling e errs h = elim (Bool-cases (is_host_not_set e)) [
  | inl set ↦ rw set h
  | inr told ↦ rw told (All-snoc errs e h told)
]

both_false : (a b : Bool) → a ≡ false → b ≡ false → (a || b) ≡ false
both_false a b h k = ground arith

none_not_set :
    (errs : List Error)
    → All Telling errs
    → any (λ s. is_some (present (map some errs)) s) not_set_errors ≡ false
unfolding is present is_host_not_set
none_not_set [] h = refl
none_not_set (e ∷ errs) h =
    any-or (is e) (is_some (present (map some errs))) not_set_errors
    ∙ both_false _ _ h.0 (none_not_set errs h.1)

join_present-Telling :
    (es : Errors) (e : Error)
    → any (λ s. is_some es s) not_set_errors ≡ false
    → join_present es ≡ some e
    → Telling e
unfolding join_present is_host_not_set is
join_present-Telling nil e h p = cc
join_present-Telling (cons x es) e h p = let q : joined (cons x es) ≡ e = ground arith in rw (← q) h

all_failed-Telling :
    (errs : List Error) (e : Error)
    → All Telling errs
    → all_failed errs err_rootless_not_found ≡ err e
    → Telling e
unfolding all_failed
all_failed-Telling errs e h p = elim (Option-cases (join (map some errs))) [
  | inl q ↦
      let same_error : new err_rootless_not_found ≡ e = ground arith in
      rw (← same_error) (unfold is_host_not_set in refl)
  | inr (x, q) ↦
      let same_error : x ≡ e = ground arith in
      rw (← same_error)
        (join_present-Telling (present (map some errs)) x (none_not_set errs h) (unfold join in q))
]

first_socket-Telling :
    (schema : String) (rs : List (Result String)) (errs : List Error) (e : Error)
    → All Telling errs
    → first_socket schema rs errs ≡ err e
    → Telling e
unfolding first_socket
first_socket-Telling schema [] errs e h p = all_failed-Telling errs e h p
first_socket-Telling schema (ok s ∷ rs) errs e h p = cc
first_socket-Telling schema (err x ∷ rs) errs e h p =
    first_socket-Telling schema rs (note_error x errs) e (note_error-Telling x errs h) p

rootless_case :
    (schema : String) (rs : List (Result String)) (b : Bool) (e : Error)
    → (if b then err (new err_not_supported_windows) else first_socket schema rs []) ≡ err e
    → Telling e
rootless_case schema rs true e p =
    let same_error : new err_not_supported_windows ≡ e = ground arith in
    rw (← same_error) (unfold is_host_not_set in refl)
rootless_case schema rs false e p = first_socket-Telling schema rs [] e tt p

-- The rootless source never fails with an error that counts as "not set".
rootless-Telling : (m : Machine) (e : Error) → rootless_docker_socket_path m ≡ err e → Telling e
rootless-Telling m e p =
    rootless_case m.schema (rootless_sources m) (is_windows m) e
      (unfold rootless_docker_socket_path in p)

-- An error that joins others.
abbrev pub IsJoined : Error → Type 0
IsJoined e = (es : Errors) × (e ≡ joined es)

all_failed-snoc :
    (errs : List Error) (x : Error) (s : String) (e : Error)
    → all_failed (errs ++ x ∷ []) s ≡ err e
    → IsJoined e
unfolding all_failed
all_failed-snoc [] x s e p = (cons x nil, ground arith)
all_failed-snoc (y ∷ errs) x s e p = (cons y (present (map some (errs ++ x ∷ []))), ground arith)

module _ (m : Machine) where
  first_host-IsJoined :
      (xs : List (Result String)) (r : Result String) (errs : List Error) (e : Error)
      → ((x : Error) → r ≡ err x → Telling x)
      → first_host m (xs ++ r ∷ []) errs ≡ err e
      → IsJoined e
  unfolding first_host
  first_host-IsJoined [] (err x) errs e t p =
      all_failed-snoc errs x err_socket_not_found e (rw (← noted (t x refl)) p)
    where
      noted : Telling x → note_error x errs ≡ errs ++ x ∷ []
      noted h = unfold note_error in rw h
  first_host-IsJoined [] (ok host) errs e t p = elim (Option-cases (m.check_host host)) [
    | inl q ↦ absurd (ground arith)
    | inr (x, q) ↦
        all_failed-snoc errs (wrap ("check host \"" <> host <> "\"") x) err_socket_not_found e
          (ground arith)
  ]
  first_host-IsJoined (err x ∷ xs) r errs e t p = first_host-IsJoined xs r (note_error x errs) e t p
  first_host-IsJoined (ok host ∷ xs) r errs e t p = elim (Option-cases (m.check_host host)) [
    | inl q ↦ absurd (ground arith)
    | inr (x, q) ↦
        first_host-IsJoined xs r (errs ++ (wrap ("check host \"" <> host <> "\"") x ∷ [])) e t
          (ground arith)
  ]

  -- Where no docker host is found the error is always a joined one: ErrSocketNotFound is never
  -- returned.
  pub extract_docker_host-IsJoined :
      (e : Error)
      → extract_docker_host m ≡ err e
      → IsJoined e × (same e err_socket_not_found ≡ false)
  unfolding extract_docker_host same
  extract_docker_host-IsJoined e p =
      let (es, q) =
        first_host-IsJoined
          (testcontainers_host_from_properties m
            ∷ docker_host_from_env m
            ∷ docker_host_from_context m
            ∷ docker_socket_path m
            ∷ docker_host_from_properties m
            ∷ [])
          (rootless_docker_socket_path m) [] e (rootless-Telling m) p in
      ((es, q), rw q)
