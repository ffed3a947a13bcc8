-- ===== src/Auth/Lookups/Order.antt =====
-- That the order of the goroutines of getDockerAuthConfigs, and their cache, make no difference.
use text.Mathlib.TextLemmas.{append_cancel_left}
use mathlib.Core.Option.{some_inj}
use testcontainers_go.Base.{
  ℕ, String, ◌<>◌, ◌=s◌, =s_iff, false, ◌≡◌, refl, sym, ap, ◌∙◌, some, List, [], ◌∷◌, ◌++◌, map,
  append_assoc, subst, append-nil, Bool-cases, inl, inr,
}
use testcontainers_go.Base.Dict.{Dict, lookup, lookup-insert}
use testcontainers_go.Base.Rearranged.{Rearranged, same, cons, swap, trans, Rearranged-prefix}
use testcontainers_go.Errors.{Result, ok, err}
use testcontainers_go.Auth.{Credentials, AuthConfigResult, cache_key, stored, collected_configs}
use testcontainers_go.Auth.Collecting.{SameConfigs, Rearranged-SameConfigs}
use testcontainers_go.Auth.Lookups.Keys.{Distinct, asked-IsMap}
use testcontainers_go.Auth.Lookups.{
  Job, auth_job, helper_job, hostname, asks_store, sent, Lookup, queued, requesting, ready, Lookups,
  lookups, launched, Step, complete, hit, miss, answer, send, Steps, here, next, asked,
  asked_in_turn,
}

-- A goroutine that needs no credentials sends the same whatever they are.
sent_complete :
    (base64 : String → String) (j : Job) (c d : Result Credentials)
    → asks_store j ≡ false
    → sent base64 j c ≡ sent base64 j d
unfolding sent asks_store
sent_complete base64 (auth_job k ac) c d h = rw h refl
sent_complete base64 (helper_job k) c d h = cc

module _ (request : String → Result Credentials) (base64 : String → String)
    (config_key : String) where
  -- What the cache holds for the configuration is what the store answers.
  abbrev pub IsSound : Dict Credentials → Type 0
  IsSound m =
      (h : String) (c : Credentials) → lookup (cache_key config_key h) m ≡ some c → request h ≡ ok c

  -- What a goroutine is to send.
  abbrev expected : Lookup → AuthConfigResult
  expected (queued j) = asked request base64 config_key j
  expected (requesting j) = asked request base64 config_key j
  expected (ready r) = r

  -- What was sent and is to be sent is what the store answers, in some order.
  abbrev Accounted : List Job → Lookups → Type 0
  Accounted jobs (lookups m ls rs) =
      IsSound m × Rearranged (map (asked request base64 config_key) jobs) (rs ++ map expected ls)

  map-changed :
      (before after : List Lookup) (k l : Lookup)
      → expected k ≡ expected l
      → map expected (before ++ k ∷ after) ≡ map expected (before ++ l ∷ after)
  map-changed [] after k l h = ap (λ r. r ∷ map expected after) h
  map-changed (b ∷ before) after k l h = ap (λ rs. expected b ∷ rs) (map-changed before after k l h)

  sent-first :
      (before after : List Lookup) (r : AuthConfigResult)
      → Rearranged (map expected (before ++ ready r ∷ after)) (r ∷ map expected (before ++ after))
  sent-first [] after r = same
  sent-first (b ∷ before) after r =
      trans (cons (expected b) (sent-first before after r))
        (swap (expected b) r (map expected (before ++ after)))

  IsSound-stored :
      (h : String) (r : Result Credentials) (m : Dict Credentials)
      → request h ≡ r
      → IsSound m
      → IsSound (stored config_key h r m).1
  unfolding stored
  IsSound-stored h (err e) m q s = s
  IsSound-stored h (ok c) m q s = λ k d e.
      elim (Bool-cases (cache_key config_key h =s cache_key config_key k)) [
        | inl t ↦
            let p : h ≡ k =
              append_cancel_left ":" h k
                (append_cancel_left config_key (":" <> h) (":" <> k) ((=s_iff _ _).0 t)) in
            let f : some c ≡ some d =
              rw (lookup-insert (cache_key config_key k) (cache_key config_key h) c m, t) at e in
            subst (λ x. request x ≡ ok d) p (q ∙ ap ok (some_inj.0 f))
        | inr f ↦
            s k d (rw (lookup-insert (cache_key config_key k) (cache_key config_key h) c m, f) at e)
      ]

  stored-same :
      (h : String) (r : Result Credentials) (m n : Dict Credentials)
      → (stored config_key h r m).0 ≡ (stored config_key h r n).0
  unfolding stored
  stored-same h (err e) m n = refl
  stored-same h (ok c) m n = refl

  hit-asked :
      (j : Job) (c : Credentials)
      → request (hostname j) ≡ ok c
      → asked request base64 config_key j ≡ sent base64 j (ok c)
  unfolding asked stored
  hit-asked j c h = rw h refl

  -- A step of one goroutine that sends nothing.
  within :
      (jobs : List Job) (before after : List Lookup) (k l : Lookup) (m n : Dict Credentials)
      (rs : List AuthConfigResult)
      → expected k ≡ expected l
      → IsSound n
      → Accounted jobs (lookups m (before ++ k ∷ after) rs)
      → Accounted jobs (lookups n (before ++ l ∷ after) rs)
  within jobs before after k l m n rs e t (s, r) = (
    t,
    subst (λ es. Rearranged (map (asked request base64 config_key) jobs) (rs ++ es))
        (map-changed before after k l e) r,
  )

  Step-Accounted :
      (jobs : List Job) {s t : Lookups}
      → Step request base64 config_key s t
      → Accounted jobs s
      → Accounted jobs t
  unfolding asked
  Step-Accounted jobs (complete before after j c {m = m} {rs = rs} n) a =
      within jobs before after (queued j) (ready (sent base64 j c)) m m rs
        (sent_complete base64 j _ c n) a.0 a
  Step-Accounted jobs (hit before after j c {m = m} {rs = rs} n h) a =
      within jobs before after (queued j) (ready (sent base64 j (ok c))) m m rs
        (hit-asked j c (a.0 (hostname j) c h)) a.0 a
  Step-Accounted jobs (miss before after j {m = m} {rs = rs} n h) a =
      within jobs before after (queued j) (requesting j) m m rs refl a.0 a
  Step-Accounted jobs (answer before after j {m = m} {rs = rs}) a =
      within jobs before after (requesting j)
        (ready (sent base64 j (stored config_key (hostname j) (request (hostname j)) m).0)) m
        (stored config_key (hostname j) (request (hostname j)) m).1 rs
        (ap (sent base64 j) (stored-same (hostname j) (request (hostname j)) [] m))
        (IsSound-stored (hostname j) (request (hostname j)) m refl a.0) a
  Step-Accounted jobs (send before after r {m = m} {rs = rs}) (s, p) = (
    s,
    subst (Rearranged (map (asked request base64 config_key) jobs))
        (sym (append_assoc rs (r ∷ []) (map expected (before ++ after))))
        (trans p (Rearranged-prefix rs (sent-first before after r))),
  )

  Steps-Accounted :
      (jobs : List Job) {n : ℕ} {s t : Lookups}
      → Steps request base64 config_key n s t
      → Accounted jobs s
      → Accounted jobs t
  Steps-Accounted jobs here a = a
  Steps-Accounted jobs (next step rest) a = Steps-Accounted jobs rest (Step-Accounted jobs step a)

  expected-queued :
      (js : List Job) → map expected (map queued js) ≡ map (asked request base64 config_key) js
  expected-queued [] = refl
  expected-queued (j ∷ js) = ap (λ rs. asked request base64 config_key j ∷ rs) (expected-queued js)

  -- Where no registry stands twice among the entries and the helpers, and the cache holds for the
  -- configuration only what the credential store answers, every complete run of the goroutines,
  -- whatever their order and however the cache serves them, finds for each registry the
  -- credentials that asking the store for one registry after the other finds, fails exactly where
  -- that fails, and keeps the cache so.
  pub lookups-SameConfigs :
      (jobs : List Job) (m : Dict Credentials) {n : ℕ} {m' : Dict Credentials}
      {rs : List AuthConfigResult}
      → Distinct (map hostname jobs)
      → IsSound m
      → Steps request base64 config_key n (launched m jobs) (lookups m' [] rs)
      → IsSound m'
        × SameConfigs (asked_in_turn request base64 config_key jobs) (collected_configs rs)
  unfolding launched asked_in_turn
  lookups-SameConfigs jobs m {rs = rs} d s r =
      let all =
        subst (Rearranged (map (asked request base64 config_key) jobs)) (sym (expected-queued jobs))
          same in
      let (t, p) = Steps-Accounted jobs r (s, all) in
      (
        t,
        Rearranged-SameConfigs
            (subst (Rearranged (map (asked request base64 config_key) jobs)) (append-nil rs) p)
            (asked-IsMap request base64 config_key jobs d),
      )
